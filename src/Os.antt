-- ===== src/Os.antt =====
-- What the server asks of the operating system: the calls of src/server/server_file_api.c on files
-- and directories. The file system is a state; a path is a byte string with no terminator. Nothing is
-- assumed of these calls here but their types: a failing call is a value of its result.
use bsle.Prelude.{ℕ, Bool, Option, List, Bytes}

-- The file type in `st_mode` of `struct stat`, and `d_type` of `struct dirent`.
pub data Kind : Type 0 where
  regular directory other : Kind

pub record Stat : Type 0 where
  pub kind : Kind
  -- `st_mode`, of which the lowest bits are the permissions
  pub mode : ℕ
  pub size : ℕ

pub record Dirent : Type 0 where
  pub kind : Kind
  pub name : Bytes

-- `fopen`: a handle, NULL with ENOTDIR, or NULL with another error.
pub data Opened : Type 0 where
  opened not_a_dir open_error : Opened

-- `mkdir`: 0, -1 with EEXIST, or -1 with another error.
pub data Mkdir : Type 0 where
  made exists mkdir_error : Mkdir

pub record Os : Type 1 where
  pub World : Type 0
  -- `realpath(path, NULL)`
  pub realpath : World → Bytes → Option Bytes
  pub stat : World → Bytes → Option Stat
  -- `opendir` and the entries that `readdir` returns in turn
  pub read_dir : World → Bytes → Option (List Dirent)
  pub mkdir : World → Bytes → Mkdir × World
  -- whether the call succeeded
  pub unlink : World → Bytes → Bool × World
  pub rmdir : World → Bytes → Bool × World
  pub open_read : World → Bytes → Opened × World
  -- mode "w" creates the file or cuts it to nothing
  pub open_write : World → Bytes → Opened × World
  -- `fseek` to the end and `ftell`; `none` if one of them fails
  pub file_size : World → Bytes → Option ℕ
  -- `fread` of so many bytes from the start, which may return fewer
  pub fread : World → Bytes → ℕ → Bytes
  -- `fwrite` to the open file and `fclose`: how many bytes were written
  pub fwrite : World → Bytes → Bytes → ℕ × World
