-- ===== src/FileApi/Read/Holds.antt =====
-- f_read_file of src/server/server_file_api.c on a file that can be read.
use bsle.Prelude.{ℕ, ◌≡◌, refl, some, Bytes, length, ok, plenty, ==_refl}
use bsle.Server.{RetCode}
use bsle.Crypto.{Sha256}
use bsle.Crypto.Compare.{hash_byte_array-digest}
use bsle.Os.{Os, Kind, Opened}
use bsle.FileApi.{FileContent, f_open_file}
use bsle.FileApi.Read.{f_read_file, read_kind, read_opened, read_sized, read_content}

module _ (os : Os) where
  open os use {World, stat, open_read, file_size, fread}

  -- A regular file with these bytes, which opening leaves in the second state of the file system.
  pub record IsOnDisk (w : World) (path bytes : Bytes) (w' : World) : Type 0 where
    pub listed : ℕ
    pub permissions : ℕ
    pub regular :
        stat w path ≡ some (record { kind = Kind.regular; mode = permissions; size = listed })
    pub opens : open_read w path ≡ (Opened.opened, w')
    pub sized : file_size w' path ≡ some (length bytes)
    pub holds : fread w' path (length bytes) ≡ bytes

  -- What is read from it.
  abbrev pub content : Sha256 → Bytes → Bytes → FileContent
  content sha path bytes = record {
    hash = record { size = 32; array = sha.digest bytes };
    stream = bytes;
    stream_size = length bytes;
    path = path;
  }

  read_sized_file :
      (sha : Sha256) (w : World) (path bytes : Bytes)
      → fread w path (length bytes) ≡ bytes
      → read_sized os sha plenty w path (some (length bytes))
        ≡ ok (RetCode.op_success, some (content sha path bytes))
  unfolding read_sized read_content
  read_sized_file sha w path bytes holds = rw (holds) (
      rw (==_refl (length bytes))
        (rw (hash_byte_array-digest sha plenty bytes (length bytes) refl refl) refl))

  pub f_read_file-IsOnDisk :
      (sha : Sha256) (w : World) (path bytes : Bytes) (w' : World)
      → IsOnDisk w path bytes w'
      → f_read_file os sha plenty w (some path)
        ≡ ok ((RetCode.op_success, some (content sha path bytes)), w')
  unfolding f_read_file read_kind read_opened f_open_file
  f_read_file-IsOnDisk sha w path bytes w' file =
      rw (file.regular, f_read_file)
        (rw file.opens (rw file.sized (rw (read_sized_file sha w' path bytes file.holds) refl)))
