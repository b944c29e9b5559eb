-- ===== src/Tests/Reopening.antt =====
-- A run of the theorem on stopping the server and starting it again, from an empty disk.
use bsle.Prelude.{
  ◌≡◌, refl, false, some, [], ◌∷◌, ◌++◌, arith, Bytes, codes, length, take_all, ok, plenty,
}
use bsle.Db.{db_shutdown}
use bsle.Db.Files.Written.{IsSaved}
use bsle.Db.Init.Reopened.{IsFound, db_shutdown_restart}
use bsle.Paths.{basename, dirname}
use bsle.Db.{Db, accounts_of}
use bsle.Db.Codec.{magic_bytes}
use bsle.Db.Init.{db_init}
use bsle.Tests.Accounts.{alice_db, alice-IsSound}
use bsle.Tests.Disk.{Disk, files, base}
use bsle.Tests.World.{sha, home}
use bsle.Tests.Startup.{db_path, hash_path, text, rounds}

-- The database of the account, on the disk with no files.
abbrev live_db : Db base
live_db = record {
  users_htable = alice_db.users_htable;
  sesh_htable = base.sessions.create;
  home_dir = home;
  debug = false;
}

-- The disk behind each write.
abbrev emptied_db : Disk
emptied_db = (home ++ db_path, []) ∷ []

abbrev with_db : Disk
with_db = (home ++ db_path, text) ∷ emptied_db

abbrev emptied_hash : Disk
emptied_hash = (home ++ hash_path, []) ∷ with_db

abbrev with_both : Disk
with_both = (home ++ hash_path, magic_bytes ++ sha.digest text) ∷ emptied_hash

text-IsSaved : IsSaved files sha [] home (codes "/.cape") text with_both
unfolding basename dirname
text-IsSaved = record {
  wrote = with_db;
  again = with_db;
  place = record { fits = omega arith; real = refl; named = refl; room = omega arith };
  written = record { emptied = emptied_db; opens = refl; takes = refl };
  opens = refl;
  sized = refl;
  holds = take_all (length text) text (omega arith);
  hash_place = record { fits = omega arith; real = refl; named = refl; room = omega arith };
  guarded = record { emptied = emptied_hash; opens = refl; takes = refl };
}

text-IsFound : IsFound base with_both home (codes "/.cape") text with_both
unfolding basename
text-IsFound = record {
  dir = codes "/.cape";
  read = with_both;
  dir_there = record { fits = omega arith; real = refl };
  name_fits = omega arith;
  name_real = refl;
  hash_fits = omega arith;
  hash_real = refl;
  on_disk = record {
    listed = length text;
    permissions = 438;
    regular = refl;
    opens = refl;
    sized = refl;
    holds = take_all (length text) text (omega arith);
  };
  hash_on_disk = record {
    listed = 36;
    permissions = 438;
    regular = refl;
    opens = refl;
    sized = refl;
    holds = refl;
  };
}

db_shutdown_restart_example :
    (db_shutdown base plenty [] (some live_db) ≡ ok with_both)
    × (db' : Db base) × (db_init base 2 plenty with_both home ≡ ok (some db', with_both))
    × ((k : Bytes) → base.users.get db'.users_htable k ≡ base.users.get alice_db.users_htable k)
unfolding accounts_of
db_shutdown_restart_example =
    db_shutdown_restart base [] 2 [] with_both with_both live_db (codes "/.cape") refl refl
      alice-IsSound rounds text-IsSaved text-IsFound
