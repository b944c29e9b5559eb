-- ===== src/Db/Files/Written.antt =====
-- db_update_db of src/server/server_db.c when every call of the operating system succeeds.
use bsle.Prelude.{◌≡◌, refl, false, some, List, ◌++◌, Bytes, length, ok, plenty, ==_refl}
use bsle.Server.{UserAccount}
use bsle.Crypto.{Sha256}
use bsle.Crypto.Compare.{hash_byte_array-digest}
use bsle.Os.{Os, Opened}
use bsle.Paths.{basename}
use bsle.Paths.Join.{joined}
use bsle.Paths.Valid.{IsPlace, f_ver_valid_resolve_place}
use bsle.FileApi.Write.{IsWritten, f_write_file_whole, f_open_file_read, f_open_file_write}
use bsle.FileApi.Listing.{db_name, db_hash}
use bsle.Db.Codec.{magic_bytes, db_bytes}
use bsle.Db.Files.{update_db_hash, hash_contents, write_hash, save_bytes, db_written, db_update_db}

module _ (os : Os) (sha : Sha256) where
  open os use {World, open_read, file_size, fread}

  -- The two paths, in the directory of the database as it was resolved.
  abbrev pub db_path : Bytes → Bytes
  db_path dir = joined dir (basename db_name)

  abbrev pub hash_path : Bytes → Bytes
  hash_path dir = joined dir (basename db_hash)

  -- The calls that write the two files succeed: the bytes are written to the one, read back from it, and
  -- their digest is written to the other.
  pub record IsSaved (w : World) (home rest bytes : Bytes) (w' : World) : Type 0 where
    pub wrote : World
    pub again : World
    pub place : IsPlace os w home db_name rest
    pub written : IsWritten os w (db_path (home ++ rest)) bytes wrote
    pub opens : open_read wrote (db_path (home ++ rest)) ≡ (Opened.opened, again)
    pub sized : file_size again (db_path (home ++ rest)) ≡ some (length bytes)
    pub holds : fread again (db_path (home ++ rest)) (length bytes) ≡ bytes
    pub hash_place : IsPlace os again home db_hash rest
    pub guarded : IsWritten os again (hash_path (home ++ rest)) (magic_bytes ++ sha.digest bytes) w'

  module _ (w : World) (home rest bytes : Bytes) (w' : World)
      (s : IsSaved w home rest bytes w') where
    hash_contents_saved :
        hash_contents os sha plenty s.again home bytes ≡ ok (some (hash_path (home ++ rest)), w')
    unfolding hash_contents write_hash
    hash_contents_saved =
        rw (hash_byte_array-digest sha plenty bytes (length bytes) refl refl, hash_contents)
          (rw (f_ver_valid_resolve_place os s.again home db_hash rest s.hash_place) (
            rw (f_open_file_write os s.again (hash_path (home ++ rest)) s.guarded.opens)
              (rw s.guarded.takes refl)))

    update_db_hash_saved :
        update_db_hash os sha plenty s.wrote home (db_path (home ++ rest))
        ≡ ok (some (hash_path (home ++ rest)), w')
    unfolding update_db_hash
    update_db_hash_saved =
        rw (f_open_file_read os s.wrote (db_path (home ++ rest)) s.opens)
          (rw s.sized (rw s.holds (rw (==_refl (length bytes)) hash_contents_saved)))

    save_bytes_saved : save_bytes os sha plenty w home bytes (some (db_path (home ++ rest))) ≡ ok w'
    unfolding save_bytes db_written
    save_bytes_saved =
        rw (f_write_file_whole os w (db_path (home ++ rest)) bytes s.wrote s.written)
          (rw update_db_hash_saved refl)

  -- When memory does not run out and every call on the two files succeeds, `db_update_db` ends, with the
  -- text of the users in the one file and the magic bytes and its digest in the other.
  pub db_update_db_saved :
      (w : World) (home rest bytes : Bytes) (users : List UserAccount) (w' : World)
      → db_bytes users ≡ ok bytes
      → IsSaved w home rest bytes w'
      → db_update_db os sha plenty w home false users ≡ ok w'
  unfolding db_update_db
  db_update_db_saved w home rest bytes users w' made s = rw made (
      rw (f_ver_valid_resolve_place os w home db_name rest s.place)
        (save_bytes_saved w home rest bytes w' s))
