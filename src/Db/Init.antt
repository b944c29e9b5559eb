-- ===== src/Db/Init.antt =====
-- db_init of src/server/server_db.c: the files of the database are found or made, tested against the
-- stored digest, and read into the tables.
pub mod Loaded
pub mod Restart
pub mod Reopened
pub mod Started
use bsle.Prelude.{
  ℕ, Bool, true, false, Option, none, some, Bytes, Run, ok, ◌>>=◌, Mem, later, if◌then◌else◌,
}
use bsle.Crypto.{hash_bytes_match}
use bsle.Os.{Os}
use bsle.Paths.{f_ver_path_resolve}
use bsle.FileApi.{FileContent}
use bsle.FileApi.Read.{ReadResult, f_read_file}
use bsle.FileApi.Listing.{db_dir, db_name, db_hash}
use bsle.Db.{Base, Db}
use bsle.Db.Codec.{get_stored_data, get_stored_hash, populate_htable}
use bsle.Db.Files.{init_db_dir, init_db_file, update_db_hash}

-- The paths of the database and of its hash.
abbrev pub FilePair : Type 0
FilePair = Option (Bytes × Bytes)

module _ (base : Base) where
  open base use {os, sha, behind, users, sessions}

  -- The directory of the database, found or made.
  pub database_dir : Mem → os.World → Bytes → Run (Option Bytes × os.World)
  database_dir mem w home = f_ver_path_resolve os mem w (some home) (some db_dir) >>= λ dir.
      elim dir [ none ↦ init_db_dir os sha (later 2 mem) w home | some path ↦ ok (some path, w) ]

  hash_made : Bytes → Option Bytes × os.World → FilePair × os.World
  hash_made db_file (none, w) = (none, w)
  hash_made db_file (some hash_file, w) = (some (db_file, hash_file), w)

  -- The default database is made, and the hash of it.
  make_files : Mem → os.World → Bytes → Run (FilePair × os.World)
  unfolding hash_made
  make_files mem w home = init_db_file os sha mem w home >>= λ made. elim made.0 [
    | none ↦ ok (none, made.1)
    | some db_file ↦ update_db_hash os sha (later 6 mem) made.1 home db_file >>= λ hashed.
        ok (hash_made db_file hashed)
  ]

  -- What the two look-ups found: with one file of the two there is no database.
  pub database_files :
      Mem → os.World → Bytes → Option Bytes → Option Bytes → Run (FilePair × os.World)
  unfolding make_files
  database_files mem w home none none = make_files mem w home
  database_files mem w home none (some db_file) = ok (none, w)
  database_files mem w home (some hash_file) none = ok (none, w)
  database_files mem w home (some hash_file) (some db_file) = ok (some (db_file, hash_file), w)

  -- The contents of the database behind its magic bytes, if its hash is the stored one.
  pub checked_data : Mem → FileContent → FileContent → Run (Option (Bytes × ℕ))
  checked_data mem db_contents hash_contents =
      elim (get_stored_hash mem (some (hash_contents.stream, hash_contents.stream_size))) [
        | none ↦ ok none
        | some (stream, size) ↦
            hash_bytes_match (some db_contents.hash) (some stream) size >>= λ same. ok (
              if same
              then get_stored_data (later 1 mem)
                  (some (db_contents.stream, db_contents.stream_size))
              else none)
      ]

  -- The table of sessions and the `db_t`, with the users read.
  pub db_made : Mem → Bytes → Option users.T → Option (Db base)
  db_made mem home none = none
  db_made mem home (some table) =
      let db : Db base = record {
        users_htable = table;
        sesh_htable = sessions.create;
        home_dir = home;
        debug = false;
      } in
      if mem 1 then (if mem 2 then some db else none) else none

  -- The first three allocations are the two tables and the `db_t`, the others those of the rows.
  pub open_db : ℕ → Mem → Bytes → Option (Bytes × ℕ) → Run (Option (Db base))
  unfolding db_made
  open_db fuel mem home none = ok none
  open_db fuel mem home (some (stream, size)) =
      if mem 0
      then populate_htable users behind fuel (later 3 mem) users.create stream size
        >>= (λ filled. ok (db_made mem home filled))
      else ok none

  -- The second file's contents; the allocations of the check are two.
  pub both_read :
      ℕ → Mem → Bytes → FileContent → ReadResult × os.World → Run (Option (Db base) × os.World)
  unfolding checked_data open_db
  both_read fuel mem home db_contents ((code, none), w) = ok (none, w)
  both_read fuel mem home db_contents ((code, some hash_contents), w) = do
    stored ← checked_data mem db_contents hash_contents
    db ← open_db fuel (later 2 mem) home stored
    ok (db, w)

  -- The first file's contents.
  pub first_read :
      ℕ → Mem → Bytes → Bytes → ReadResult × os.World → Run (Option (Db base) × os.World)
  unfolding both_read
  first_read fuel mem home hash_file ((code, none), w) = ok (none, w)
  first_read fuel mem home hash_file ((code, some db_contents), w) =
      f_read_file os sha mem w (some hash_file) >>= λ h.
      both_read fuel (later 5 mem) home db_contents h

  -- The files are read, with five allocations each.
  pub load_files : ℕ → Mem → os.World → Bytes → FilePair → Run (Option (Db base) × os.World)
  unfolding first_read
  load_files fuel mem w home none = ok (none, w)
  load_files fuel mem w home (some (db_file, hash_file)) =
      f_read_file os sha mem w (some db_file) >>= λ r.
      first_read fuel (later 5 mem) home hash_file r

  -- With the directory there: the two look-ups, and the default files with fourteen allocations.
  with_dir : ℕ → Mem → os.World → Bytes → Run (Option (Db base) × os.World)
  unfolding load_files
  with_dir fuel mem w home = do
    hash_file ← f_ver_path_resolve os mem w (some home) (some db_hash)
    db_file ← f_ver_path_resolve os (later 2 mem) w (some home) (some db_name)
    files ← database_files (later 4 mem) w home hash_file db_file
    load_files fuel (later 18 mem) files.1 home files.0

  -- With the directory, or none.
  pub with_found : ℕ → Mem → Bytes → Option Bytes × os.World → Run (Option (Db base) × os.World)
  unfolding with_dir
  with_found fuel mem home (none, w) = ok (none, w)
  with_found fuel mem home (some path, w) = with_dir fuel mem w home

  -- `db_init`; `none` is a return of NULL.
  pub db_init : ℕ → Mem → os.World → Bytes → Run (Option (Db base) × os.World)
  unfolding with_found
  db_init fuel mem w home =
      database_dir mem w home >>= λ dir. with_found fuel (later 7 mem) home dir
