-- ===== src/FileApi/Write.antt =====
-- f_write_file of src/server/server_file_api.c on a file that takes all bytes.
use bsle.Prelude.{◌≡◌, refl, true, false, some, Bytes, length, ==_refl}
use bsle.Server.{RetCode}
use bsle.Os.{Os, Opened}
use bsle.FileApi.{f_open_file, f_write_file}

module _ (os : Os) where
  open os use {World, open_read, open_write, fwrite}

  -- The file is opened for writing, and takes all of these bytes.
  pub record IsWritten (w : World) (path bytes : Bytes) (w' : World) : Type 0 where
    pub emptied : World
    pub opens : open_write w path ≡ (Opened.opened, emptied)
    pub takes : fwrite emptied path bytes ≡ (length bytes, w')

  pub f_open_file_write :
      (w : World) (path : Bytes) {w' : World}
      → open_write w path ≡ (Opened.opened, w')
      → f_open_file os true w (some path) ≡ (RetCode.op_success, w')
  unfolding f_open_file
  f_open_file_write w path e = rw e

  pub f_open_file_read :
      (w : World) (path : Bytes) {w' : World}
      → open_read w path ≡ (Opened.opened, w')
      → f_open_file os false w (some path) ≡ (RetCode.op_success, w')
  unfolding f_open_file
  f_open_file_read w path e = rw e

  pub f_write_file_whole :
      (w : World) (path bytes : Bytes) (w' : World)
      → IsWritten w path bytes w'
      → f_write_file os w (some path) (some bytes) (length bytes) ≡ (RetCode.op_success, w')
  unfolding f_write_file
  f_write_file_whole w path bytes w' file =
      rw file.opens (rw file.takes (rw (==_refl (length bytes)) refl))
