-- ===== src/Tests/World.antt =====
-- A small machine for the examples: a disk with one file, a digest of 32 bytes, two association lists.
use bsle.Prelude.{
  ℕ, zero, suc, ◌%◌, ◌≡◌, refl, true, some, [], ◌∷◌, arith, Bytes, length, take, replicate, codes,
  All, IsByte, Mem, eq_bytes, eq_bytes→eq, eq_bytes_refl, ==_iff, ==_refl,
}
use bsle.Crypto.{Sha256}
use bsle.Os.{Os, Kind, Opened, Mkdir}
use bsle.Db.{Base, Db, eq_session}
use bsle.Tests.Assoc.{assoc}

-- The world is the content of the one file; every path is resolved to itself.
abbrev pub disk : Os
disk = record {
  World = Bytes;
  realpath = λ w path. some path;
  stat = λ w path. some (record { kind = Kind.regular; mode = 438; size = length w });
  read_dir = λ w path. some [];
  mkdir = λ w path. (Mkdir.made, w);
  unlink = λ w path. (true, []);
  rmdir = λ w path. (true, w);
  open_read = λ w path. (Opened.opened, w);
  open_write = λ w path. (Opened.opened, []);
  file_size = λ w path. some (length w);
  fread = λ w path n. take n w;
  fwrite = λ w path s. (length s, s);
}

-- A digest that tells texts of different lengths apart.
abbrev pub length_digest : Bytes → Bytes
length_digest s = (length s % 256) ∷ replicate 31 7

pub length_digest-IsByte : (s : Bytes) → All IsByte (length_digest s)
length_digest-IsByte s = (omega arith, sevens 31)
  where
    sevens : (n : ℕ) → All IsByte (replicate n 7)
    sevens zero = tt
    sevens (suc n) = (omega arith, sevens n)

abbrev pub sha : Sha256
sha = record {
  digest = length_digest;
  length-digest = λ s. refl;
  digest-IsByte = length_digest-IsByte;
}

pub session_sound : (a b : ℕ) → eq_session a b ≡ true → a ≡ b
session_sound a b h = (==_iff a b).0 h

abbrev pub base : Base
base = record {
  os = disk;
  sha = sha;
  behind = some [];
  users = assoc eq_bytes eq_bytes→eq eq_bytes_refl;
  sessions = assoc eq_session session_sound ==_refl;
}

-- Memory that never runs out.
abbrev pub roomy : Mem
roomy i = true

abbrev pub home : Bytes
home = codes "/srv"

-- A database with no users and no sessions, which writes no files.
abbrev pub empty_db : Db base
empty_db = record {
  users_htable = base.users.create;
  sesh_htable = base.sessions.create;
  home_dir = home;
  debug = true;
}
