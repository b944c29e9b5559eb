-- ===== src/FileApi.antt =====
-- src/server/server_file_api.c, the operations on files and directories.
-- A pointer that may be NULL is an `Option`; an operation returns its code, its result and the file
-- system that it leaves.
pub mod Read
pub mod Listing
pub mod Write
use bsle.Prelude.{
  ℕ, zero, suc, ◌+◌, ◌*◌, ◌-◌, ◌/◌, ◌%◌, Bool, true, false, not, ◌&&◌, ◌||◌, Option, none, some,
  List, [], ◌∷◌, ◌++◌, ◌≡◌, Bytes, codes, length, Run, ok, fault, ◌>>=◌, Mem, later, ltb, leb, ◌==◌,
  eq_bytes, if◌then◌else◌,
}
use bsle.Server
use bsle.Server.{RetCode, Hash}
use bsle.Crypto.{Sha256, hash_byte_array}
use bsle.Os.{Os, Kind, Stat, Dirent, Opened, Mkdir}

-- `file_content_t`
pub record FileContent : Type 0 where
  pub hash : Hash
  pub stream : Bytes
  pub stream_size : ℕ
  pub path : Bytes

module _ (os : Os) where
  open os use {
    World, stat, read_dir, mkdir, unlink, rmdir, open_read, open_write, file_size, fread, fwrite,
  }

  pub f_create_dir : World → Option Bytes → RetCode × World
  f_create_dir w none = (RetCode.op_failure, w)
  f_create_dir w (some path) =
      let (result, w') = mkdir w path in
      elim result [
        | Mkdir.made ↦ (RetCode.op_success, w')
        | Mkdir.exists ↦ (RetCode.op_dir_exists, w')
        | Mkdir.mkdir_error ↦ (RetCode.op_failure, w')
      ]

  -- The loop that counts the entries of a directory, `file_count` a byte, and stops at four.
  pub count_entries : List Dirent → ℕ → ℕ
  count_entries [] file_count = file_count
  count_entries (obj ∷ rest) file_count =
      let more = count_entries rest ((file_count + 1) % 256) in
      if ltb file_count 4 then more else file_count

  -- What a call that removes does to the code.
  removed : Bool × World → RetCode × World
  removed (true, w) = (RetCode.op_success, w)
  removed (false, w) = (RetCode.op_failure, w)

  -- `readdir(NULL)` is a fault.
  del_dir : World → Bytes → Option (List Dirent) → Run (RetCode × World)
  unfolding count_entries removed
  del_dir w path none = fault
  del_dir w path (some entries) =
      if ltb 2 (count_entries entries 0)
      then ok (RetCode.op_dir_not_empty, w)
      else ok (removed (rmdir w path))

  del_kind : World → Bytes → Kind → Run (RetCode × World)
  unfolding del_dir
  del_kind w path Kind.regular = ok (removed (unlink w path))
  del_kind w path Kind.directory = del_dir w path (read_dir w path)
  del_kind w path Kind.other = ok (RetCode.op_failure, w)

  pub f_del_file : World → Option Bytes → Run (RetCode × World)
  unfolding del_kind
  f_del_file w none = ok (RetCode.op_failure, w)
  f_del_file w (some path) = elim (stat w path) [
    | none ↦ ok (RetCode.op_failure, w)
    | some st ↦ del_kind w path st.kind
  ]

  -- The code for what `fopen` returned.
  abbrev open_code : Opened → RetCode
  open_code Opened.opened = RetCode.op_success
  open_code Opened.not_a_dir = RetCode.op_path_not_file
  open_code Opened.open_error = RetCode.op_failure

  opened_as : Opened × World → RetCode × World
  opened_as (r, w) = (open_code r, w)

  -- `f_open_file` in mode "r" and in mode "w", on a path that is not NULL.
  pub f_open_file : Bool → World → Option Bytes → RetCode × World
  unfolding opened_as
  f_open_file write w none = (RetCode.op_failure, w)
  f_open_file true w (some path) = opened_as (open_write w path)
  f_open_file false w (some path) = opened_as (open_read w path)

  -- `fwrite` wrote so many bytes of as many as were asked for.
  write_done : ℕ → ℕ × World → RetCode × World
  write_done size (written, w) =
      (if written == size then RetCode.op_success else RetCode.op_failure, w)

  write_opened : Bytes → Bytes → ℕ → RetCode × World → RetCode × World
  unfolding write_done
  write_opened path stream size (RetCode.op_success, w) = write_done size (fwrite w path stream)
  write_opened path stream size (code, w) = (code, w)

  -- The stream has `stream_size` bytes.
  pub f_write_file : World → Option Bytes → Option Bytes → ℕ → RetCode × World
  unfolding f_open_file write_opened
  f_write_file w none stream size = (RetCode.op_failure, w)
  f_write_file w (some path) none size = (RetCode.op_failure, w)
  f_write_file w (some path) (some stream) size =
      write_opened path stream size (f_open_file true w (some path))
