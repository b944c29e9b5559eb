-- ===== src/Db/Init/Reopened.antt =====
-- db_shutdown and then db_init of src/server/server_db.c: a server that is stopped and started again.
use bsle.Prelude.{
  ℕ, ◌+◌, ◌≤◌, ◌<◌, ◌≡◌, ◌∙◌, ap, subst, false, some, Bytes, ◌++◌, append_assoc, length, ok, plenty,
}
use bsle.Paths.{path_max, basename}
use bsle.Paths.Join.{joined}
use bsle.Paths.Valid.{joined_behind}
use bsle.FileApi.Read.Holds.{IsOnDisk}
use bsle.FileApi.Listing.{db_dir, db_name, db_hash}
use bsle.Db.{Base, Db, accounts_of, db_shutdown}
use bsle.Db.Codec.{magic_bytes}
use bsle.Db.Codec.Writer.{rows}
use bsle.Db.Files.Written.{IsSaved, db_path, hash_path, db_update_db_saved}
use bsle.Db.Sound.{IsSound, db_bytes-IsSound}
use bsle.Db.Init.{db_init}
use bsle.Db.Init.Restart.{IsThere, db_init_restart}

module _ (base : Base) where
  open base use {os, sha, behind, users}

  -- The text of a table of users.
  abbrev pub text_of : users.T → Bytes
  text_of t = magic_bytes ++ rows (accounts_of base t)

  -- The next start finds the two files where they were written, and reads from them what was written.
  pub record IsFound (w : os.World) (home rest bytes : Bytes) (w2 : os.World) : Type 0 where
    pub dir : Bytes
    pub read : os.World
    pub dir_there : IsThere base w home db_dir dir
    pub name_fits : length home + length db_name + 2 ≤ path_max
    pub name_real : os.realpath w (joined home db_name) ≡ some (db_path os sha (home ++ rest))
    pub hash_fits : length home + length db_hash + 2 ≤ path_max
    pub hash_real : os.realpath w (joined home db_hash) ≡ some (hash_path os sha (home ++ rest))
    pub on_disk : IsOnDisk os w (db_path os sha (home ++ rest)) bytes read
    pub hash_on_disk :
        IsOnDisk os read (hash_path os sha (home ++ rest)) (magic_bytes ++ sha.digest bytes) w2

  -- A file in a directory below the home directory lies below the home directory.
  below_home : (home rest name : Bytes) → (r : Bytes) × (joined (home ++ rest) name ≡ home ++ r)
  below_home home rest name =
      let (behind, e) = joined_behind (home ++ rest) name in
      (rest ++ behind, e ∙ append_assoc home rest behind)

  -- Stopping the server and starting it again keeps its users. Memory holds a 0 behind the
  -- text, which the source does not put there, and does not run out, the loop has a
  -- round for each account and one more, the table is sound, every call that writes the two files
  -- succeeds, and the next start finds them and reads what was written: then `db_shutdown` ends, and
  -- `db_init` returns a database in which every look-up gives what it gave before the stop.
  pub db_shutdown_restart :
      (tail : Bytes) (fuel : ℕ) (w w' w2 : os.World) (db : Db base) (rest : Bytes)
      → behind ≡ some tail
      → db.debug ≡ false
      → IsSound base db.users_htable
      → length (accounts_of base db.users_htable) < fuel
      → IsSaved os sha w db.home_dir rest (text_of db.users_htable) w'
      → IsFound w' db.home_dir rest (text_of db.users_htable) w2
      → (db_shutdown base plenty w (some db) ≡ ok w')
        × (db' : Db base) × (db_init base fuel plenty w' db.home_dir ≡ ok (some db', w2))
        × ((k : Bytes) → users.get db'.users_htable k ≡ users.get db.users_htable k)
  unfolding db_shutdown
  db_shutdown_restart tail fuel w w' w2 db rest ended live sound rounds saved found =
      let made = db_bytes-IsSound base db.users_htable sound in
      let bytes = text_of db.users_htable in
      let (r, e) = below_home db.home_dir rest (basename db_name) in
      let (r', e') = below_home db.home_dir rest (basename db_hash) in
      let (db', started, kept) =
        db_init_restart base tail fuel w' found.read w2 db.home_dir found.dir r r' bytes
          db.users_htable ended sound rounds made found.dir_there
          (record { fits = found.name_fits; real = found.name_real ∙ ap some e })
          (record { fits = found.hash_fits; real = found.hash_real ∙ ap some e' })
          (subst (λ (p : Bytes). IsOnDisk os w' p bytes found.read) e found.on_disk)
          (subst (λ (p : Bytes). IsOnDisk os found.read p (magic_bytes ++ sha.digest bytes) w2) e'
            found.hash_on_disk) in
      (
        rw live (
            db_update_db_saved os sha w db.home_dir rest bytes (accounts_of base db.users_htable) w'
              made saved),
        db',
        started,
        kept,
      )
