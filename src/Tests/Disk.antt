-- ===== src/Tests/Disk.antt =====
-- A disk with several files.
use bsle.Prelude.{
  true, Option, none, some, List, [], ◌∷◌, Bytes, codes, length, take, eq_bytes, if◌then◌else◌,
}
use bsle.Os.{Os, Kind, Stat, Opened, Mkdir}
use bsle.Table.{find}
use bsle.Db.{Base}
use bsle.Tests.World
use bsle.Tests.World.{home}

-- The files by their paths.
abbrev pub Disk : Type 0
Disk = List (Bytes × Bytes)

-- The home directory, which everyone may read and write.
abbrev pub home_stat : Stat
home_stat = record { kind = Kind.directory; mode = 511; size = 4096 }

abbrev pub file_stat : Option Bytes → Option Stat
file_stat none = none
file_stat (some bytes) = some (record { kind = Kind.regular; mode = 438; size = length bytes })

abbrev pub file_open : Option Bytes → Opened
file_open none = Opened.open_error
file_open (some bytes) = Opened.opened

abbrev pub file_bytes : Option Bytes → Bytes
file_bytes none = []
file_bytes (some bytes) = bytes

abbrev pub files : Os
files = record {
  World = Disk;
  realpath = λ w path. some (if eq_bytes path (codes "/srv/") then home else path);
  stat = λ w path. if eq_bytes path home then some home_stat else file_stat (find eq_bytes path w);
  read_dir = λ w path. some [];
  mkdir = λ w path. (Mkdir.made, w);
  unlink = λ w path. (true, w);
  rmdir = λ w path. (true, w);
  open_read = λ w path. (file_open (find eq_bytes path w), w);
  open_write = λ w path. (Opened.opened, (path, []) ∷ w);
  file_size = λ w path. some (length (file_bytes (find eq_bytes path w)));
  fread = λ w path n. take n (file_bytes (find eq_bytes path w));
  fwrite = λ w path s. (length s, (path, s) ∷ w);
}

abbrev pub base : Base
base = record World.base { os = files }
