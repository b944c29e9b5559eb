-- ===== src/FileApi/Read.antt =====
-- `f_read_file` of src/server/server_file_api.c.
pub mod Content
pub mod Holds
use bsle.Prelude.{
  ℕ, false, Option, none, some, Bytes, length, Run, ok, fault, ◌>>=◌, Mem, later, ◌==◌,
  if◌then◌else◌,
}
use bsle.Server.{RetCode, Hash}
use bsle.Crypto.{Sha256, hash_byte_array}
use bsle.Os.{Os, Kind}
use bsle.FileApi.{FileContent, f_open_file}

abbrev pub ReadResult : Type 0
ReadResult = RetCode × Option FileContent

-- The part behind `fclose`. Every error exit from here closes the file a second time. The allocations
-- are the `file_content_t` and the copy of the path.
read_content : Sha256 → Mem → Bytes → Bytes → Option Hash → Run ReadResult
read_content sha mem path bytes none = fault
read_content sha mem path bytes (some h) =
    if mem 0
    then (if mem 1
        then ok (
          RetCode.op_success,
          some (record { hash = h; stream = bytes; stream_size = length bytes; path = path }),
        )
        else fault)
    else fault

module _ (os : Os) (sha : Sha256) where
  open os use {World, stat, file_size, fread}

  -- The size is known: the allocation of the array, the read, and the two allocations of the hash.
  read_sized : Mem → World → Bytes → Option ℕ → Run ReadResult
  unfolding read_content
  read_sized mem w path none = ok (RetCode.op_io_error, none)
  read_sized mem w path (some size) =
      let bytes = fread w path size in
      if mem 0
      then (if length bytes == size
          then read_content sha (later 3 mem) path bytes
              (hash_byte_array sha (later 1 mem) (some bytes) (length bytes))
          else fault)
      else ok (RetCode.op_failure, none)

  read_opened : Mem → World → Bytes → RetCode → Run ReadResult
  unfolding read_sized
  read_opened mem w path RetCode.op_success = read_sized mem w path (file_size w path)
  read_opened mem w path code = ok (RetCode.op_io_error, none)

  read_kind : Mem → World → Bytes → Kind → Run (ReadResult × World)
  unfolding read_opened
  read_kind mem w path Kind.regular =
      let (code, w') = f_open_file os false w (some path) in
      read_opened mem w' path code >>= λ r. ok (r, w')
  read_kind mem w path kind = ok ((RetCode.op_path_not_file, none), w)

  pub f_read_file : Mem → World → Option Bytes → Run (ReadResult × World)
  unfolding read_kind
  f_read_file mem w none = ok ((RetCode.op_io_error, none), w)
  f_read_file mem w (some path) = elim (stat w path) [
    | none ↦ ok ((RetCode.op_io_error, none), w)
    | some st ↦ read_kind mem w path st.kind
  ]
