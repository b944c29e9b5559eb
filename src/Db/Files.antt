-- ===== src/Db/Files.antt =====
-- src/server/server_db.c, the files: the database text and the digest of it that guards it.
-- The bytes that several `fwrite` calls put into one stream are written at once.
pub mod Written
use bsle.Prelude.{
  ℕ, Bool, true, false, Option, none, some, List, ◌++◌, Bytes, length, Run, ok, fault, ◌>>=◌, Mem,
  later, ◌==◌, if◌then◌else◌,
}
use bsle.Server.{RetCode, UserAccount, perm_admin}
use bsle.Crypto.{Sha256, hash_byte_array}
use bsle.Os.{Os}
use bsle.Paths.{f_ver_valid_resolve}
use bsle.FileApi.{f_open_file, f_write_file, f_create_dir}
use bsle.FileApi.Listing.{db_dir, db_name, db_hash}
use bsle.Db.Codec.{magic_bytes, default_user, default_hash, row_text, db_bytes}

module _ (os : Os) (sha : Sha256) where
  open os use {World, file_size, fread, fwrite}

  hash_written : Bytes → ℕ × World → Option Bytes × World
  hash_written hash_file (written, w) = (some hash_file, w)

  -- The file of the hash, opened. The database file is closed by now, so every error exit closes it a
  -- second time.
  hash_opened : Bytes → Bytes → RetCode × World → Run (Option Bytes × World)
  unfolding hash_written
  hash_opened digest hash_file (RetCode.op_success, w) =
      ok (hash_written hash_file (fwrite w hash_file (magic_bytes ++ digest)))
  hash_opened digest hash_file (code, w) = fault

  -- The last part of `update_db_hash`: the file of the hash is opened and written.
  write_hash : World → Bytes → Option Bytes → Run (Option Bytes × World)
  unfolding hash_opened
  write_hash w digest none = fault
  write_hash w digest (some hash_file) =
      hash_opened digest hash_file (f_open_file os true w (some hash_file))

  -- With the file read: the hash has two allocations, the path of the hash file five.
  hash_contents : Mem → World → Bytes → Bytes → Run (Option Bytes × World)
  unfolding write_hash
  hash_contents mem w home bytes = elim (hash_byte_array sha mem (some bytes) (length bytes)) [
    | none ↦ fault
    | some h ↦ f_ver_valid_resolve os (later 2 mem) w (some home) (some db_hash) >>= λ hash_file.
        write_hash w h.array hash_file
  ]

  -- The database file is read into an array, the first allocation.
  read_back : Mem → World → Bytes → Bytes → Option ℕ → Run (Option Bytes × World)
  unfolding hash_contents
  read_back mem w home db_file none = ok (none, w)
  read_back mem w home db_file (some size) =
      let bytes = fread w db_file size in
      if mem 0
      then (if length bytes == size then hash_contents (later 1 mem) w home bytes else fault)
      else ok (none, w)

  db_opened : Mem → Bytes → Bytes → RetCode × World → Run (Option Bytes × World)
  unfolding read_back
  db_opened mem home db_file (RetCode.op_success, w) =
      read_back mem w home db_file (file_size w db_file)
  db_opened mem home db_file (code, w) = ok (none, w)

  -- The result is the path of the hash file.
  pub update_db_hash : Mem → World → Bytes → Bytes → Run (Option Bytes × World)
  unfolding db_opened
  update_db_hash mem w home db_file =
      db_opened mem home db_file (f_open_file os false w (some db_file))

  -- Only OP_FAILURE of the write stops it.
  db_written : Mem → Bytes → Bytes → RetCode × World → Run World
  db_written mem home db_path (RetCode.op_failure, w) = ok w
  db_written mem home db_path (code, w) = update_db_hash mem w home db_path >>= λ r. ok r.1

  -- With the path of the database.
  save_bytes : Mem → World → Bytes → Bytes → Option Bytes → Run World
  unfolding update_db_hash db_written
  save_bytes mem w home bytes none = ok w
  save_bytes mem w home bytes (some db_path) =
      db_written mem home db_path (f_write_file os w (some db_path) (some bytes) (length bytes))

  -- `db_update_db`: nothing under `_debug`; else the buffer, the path with its five allocations, and
  -- the two files. The caller never learns whether it worked.
  unfoldable pub db_update_db : Mem → World → Bytes → Bool → List UserAccount → Run World
  unfolding save_bytes
  db_update_db mem w home true users = ok w
  db_update_db mem w home false users =
      if mem 0
      then (do
        bytes ← db_bytes users
        db_path ← f_ver_valid_resolve os (later 1 mem) w (some home) (some db_name)
        save_bytes (later 6 mem) w home bytes db_path)
      else ok w

  -- The bytes of a new database: the one administrator.
  default_bytes : Bytes
  default_bytes = magic_bytes ++ row_text default_user perm_admin default_hash

  init_written : World → Bytes → RetCode × World → Option Bytes × World
  init_written w path (RetCode.op_failure, w') = (none, w')
  init_written w path (code, w') = (some path, w')

  -- The path takes five allocations, then the buffer one.
  pub init_db_file : Mem → World → Bytes → Run (Option Bytes × World)
  unfolding default_bytes init_written
  init_db_file mem w home = f_ver_valid_resolve os mem w (some home) (some db_name) >>= λ db.
      elim db [
        | none ↦ ok (none, w)
        | some path ↦
            if mem 5
            then ok (
                init_written w path
                  (f_write_file os w (some path) (some default_bytes) (length default_bytes)))
            else ok (none, w)
      ]

  pub init_db_dir : Mem → World → Bytes → Run (Option Bytes × World)
  unfolding init_written
  init_db_dir mem w home = f_ver_valid_resolve os mem w (some home) (some db_dir) >>= λ dir.
      elim dir [
        | none ↦ ok (none, w)
        | some path ↦ ok (init_written w path (f_create_dir os w (some path)))
      ]
