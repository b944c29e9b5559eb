-- ===== src/Db/Init/Restart.antt =====
-- db_init of src/server/server_db.c on the files that db_update_db leaves.
use bsle.Prelude.{
  sym, arith, false, ℕ, ◌+◌, ◌≤◌, ◌<◌, ◌≡◌, refl, some, Bytes, ◌++◌, length, ok, plenty,
  eq_bytes_refl,
}
use bsle.Crypto.Compare.{hash_bytes_match-eq_bytes}
use bsle.Paths.{path_max, f_ver_path_resolve}
use bsle.Paths.Join.{joined}
use bsle.Paths.Resolve.{f_ver_path_resolve_prefix}
use bsle.FileApi.Read.Holds.{IsOnDisk, content, f_read_file-IsOnDisk}
use bsle.FileApi.Listing.{db_dir, db_name, db_hash}
use bsle.Db.{Base, Db, accounts_of}
use bsle.Db.Codec.{magic_bytes, db_bytes, get_stored_data, populate_htable}
use bsle.Db.Codec.Stored.{get_stored_hash_magic}
use bsle.Db.Sound.{IsSound, reload-IsSound}
use bsle.Db.Init.{
  checked_data, open_db, load_files, database_files, database_dir, with_dir, with_found, db_init,
}

module _ (base : Base) where
  open base use {os, sha, behind, users, sessions}

  -- A file of the database, looked up below the home directory.
  pub record IsThere (w : os.World) (home child rest : Bytes) : Type 0 where
    pub fits : length home + length child + 2 ≤ path_max
    pub real : os.realpath w (joined home child) ≡ some (home ++ rest)

  found_there :
      (w : os.World) (home child rest : Bytes)
      → IsThere w home child rest
      → f_ver_path_resolve os plenty w (some home) (some child) ≡ ok (some (home ++ rest))
  found_there w home child rest there =
      f_ver_path_resolve_prefix os plenty w home child rest refl refl there.fits there.real

  -- The database, with the table and no session.
  abbrev pub fresh_db : Bytes → users.T → Db base
  fresh_db home t = record {
    users_htable = t;
    sesh_htable = sessions.create;
    home_dir = home;
    debug = false;
  }

  checked_data_own :
      (path path' bytes : Bytes)
      → checked_data base plenty
          (content os sha path bytes)
          (content os sha path' (magic_bytes ++ sha.digest bytes))
        ≡ ok (get_stored_data plenty (some (bytes, length bytes)))
  unfolding checked_data
  checked_data_own path path' bytes =
      rw
        (
          get_stored_hash_magic plenty (sha.digest bytes) (sha.length-digest bytes) refl,
          checked_data,
        )
        (rw
          (hash_bytes_match-eq_bytes (record { size = 32; array = sha.digest bytes })
            (sha.digest bytes) (sym (sha.length-digest bytes)))
          (rw (eq_bytes_refl (sha.digest bytes)) refl))

  open_db-plenty :
      (fuel : ℕ) (home text : Bytes) (t : users.T)
      → populate_htable users behind fuel plenty users.create text (length text) ≡ ok (some t)
      → open_db base fuel plenty home (some (text, length text)) ≡ ok (some (fresh_db home t))
  unfolding open_db
  open_db-plenty fuel home text t filled = rw (filled) refl

  load_files_own :
      (fuel : ℕ) (home path path' bytes text : Bytes) (w w1 w2 : os.World) (t : users.T)
      → IsOnDisk os w path bytes w1
      → IsOnDisk os w1 path' (magic_bytes ++ sha.digest bytes) w2
      → get_stored_data plenty (some (bytes, length bytes)) ≡ some (text, length text)
      → populate_htable users behind fuel plenty users.create text (length text) ≡ ok (some t)
      → load_files base fuel plenty w home (some (path, path')) ≡ ok (some (fresh_db home t), w2)
  unfolding load_files
  load_files_own fuel home path path' bytes text w w1 w2 t disk disk' stored filled =
      rw (f_read_file-IsOnDisk os sha w path bytes w1 disk) (
        rw (f_read_file-IsOnDisk os sha w1 path' (magic_bytes ++ sha.digest bytes) w2 disk') (
          rw (checked_data_own path path' bytes)
            (rw stored (rw (open_db-plenty fuel home text t filled) refl))))

  -- A server that is stopped and started again knows its users. Memory holds a 0 behind the
  -- text, and does not run out, the loop has a
  -- round for each account and one more, the directory and the two files are found below the home
  -- directory, the one file has the bytes that `db_update_db` writes for a sound table, the other the
  -- magic bytes and their digest: then `db_init` returns a database in which every look-up gives what
  -- it gave in that table.
  pub db_init_restart :
      (tail : Bytes) (fuel : ℕ) (w w1 w2 : os.World) (home d r r' bytes : Bytes) (t : users.T)
      → behind ≡ some tail
      → IsSound base t
      → length (accounts_of base t) < fuel
      → db_bytes (accounts_of base t) ≡ ok bytes
      → IsThere w home db_dir d
      → IsThere w home db_name r
      → IsThere w home db_hash r'
      → IsOnDisk os w (home ++ r) bytes w1
      → IsOnDisk os w1 (home ++ r') (magic_bytes ++ sha.digest bytes) w2
      → (db : Db base) × (db_init base fuel plenty w home ≡ ok (some db, w2))
        × ((k : Bytes) → users.get db.users_htable k ≡ users.get t k)
  unfolding db_init database_dir with_found with_dir database_files
  db_init_restart tail fuel w w1 w2 home d r r' bytes t ended sound rounds written dir name hash
        disk disk' =
      let (file, stream, t', made, stored, filled, same) =
        reload-IsSound base tail fuel plenty t ended sound rounds (λ i. refl) in
      let whole : file ≡ bytes = ground (arith, made, written) in
      (
        fresh_db home t',
        rw (found_there w home db_dir d dir) (
            rw (found_there w home db_hash r' hash) (
              rw (found_there w home db_name r name) (
                load_files_own fuel home (home ++ r) (home ++ r') bytes stream w w1 w2 t' disk disk'
                  (rw (← whole) stored) filled))),
        same,
      )
