-- ===== src/Db/Init/Started.antt =====
-- db_init of src/server/server_db.c from its start.
use bsle.Prelude.{ℕ, ◌≡◌, ◌∙◌, ap, refl, Option, none, some, Bytes, ok, ◌>>=◌, bind_ok, Mem, later}
use bsle.Paths.{f_ver_path_resolve}
use bsle.FileApi.Listing.{db_name, db_hash}
use bsle.Db.{Base, Db}
use bsle.Db.Init.{FilePair, database_dir, database_files, load_files, with_dir, with_found, db_init}
use bsle.Db.Init.Loaded.{IsLoaded, load_files-IsLoaded}

module _ (base : Base) where
  open base use {os}

  -- The database files as `db_init` comes by them: both looked up, or both made.
  pub record IsStarted (fuel : ℕ) (home : Bytes) (db : Db base) (w' : os.World) : Type 0 where
    pub mem : Mem
    pub before : os.World
    pub after : os.World
    pub hash_file : Option Bytes
    pub db_file : Option Bytes
    pub files : Bytes × Bytes
    pub hash_found : f_ver_path_resolve os mem before (some home) (some db_hash) ≡ ok hash_file
    pub db_found :
        f_ver_path_resolve os (later 2 mem) before (some home) (some db_name) ≡ ok db_file
    pub both :
        database_files base (later 4 mem) before home hash_file db_file ≡ ok (some files, after)
    pub loaded : IsLoaded base fuel after home files db w'

  paired :
      (fuel : ℕ) (mem : Mem) (home : Bytes) (files : FilePair × os.World) (db : Db base)
      {w' : os.World}
      → load_files base fuel mem files.1 home files.0 ≡ ok (some db, w')
      → (pair : Bytes × Bytes) × (files.0 ≡ some pair) × IsLoaded base fuel files.1 home pair db w'
  unfolding load_files
  paired fuel mem home (none, w) db e = cc
  paired fuel mem home (some pair, w) db e =
      (pair, refl, load_files-IsLoaded base fuel mem w home pair db e)

  with_dir-IsStarted :
      (fuel : ℕ) (mem : Mem) (w : os.World) (home : Bytes) (db : Db base) {w' : os.World}
      → with_dir base fuel mem w home ≡ ok (some db, w')
      → IsStarted fuel home db w'
  unfolding with_dir
  with_dir-IsStarted fuel mem w home db e =
      let (hash_file, found, e1) =
        bind_ok (f_ver_path_resolve os mem w (some home) (some db_hash))
          (λ hash_file.
            f_ver_path_resolve os (later 2 mem) w (some home) (some db_name) >>= (λ db_file.
              database_files base (later 4 mem) w home hash_file db_file
              >>= (λ files. load_files base fuel (later 18 mem) files.1 home files.0)))
          e in
      let (db_file, found', e2) =
        bind_ok (f_ver_path_resolve os (later 2 mem) w (some home) (some db_name))
          (λ db_file.
            database_files base (later 4 mem) w home hash_file db_file
            >>= (λ files. load_files base fuel (later 18 mem) files.1 home files.0))
          e1 in
      let (files, both, e3) =
        bind_ok (database_files base (later 4 mem) w home hash_file db_file)
          (λ files. load_files base fuel (later 18 mem) files.1 home files.0) e2 in
      let (pair, is_some, loaded) = paired fuel (later 18 mem) home files db e3 in
      record {
        mem = mem;
        before = w;
        after = files.1;
        hash_file = hash_file;
        db_file = db_file;
        files = pair;
        hash_found = found;
        db_found = found';
        both = both ∙ ap (λ (p : FilePair). ok (p, files.1)) is_some;
        loaded = loaded;
      }

  with_found-IsStarted :
      (fuel : ℕ) (mem : Mem) (home : Bytes) (dir : Option Bytes × os.World) (db : Db base)
      {w' : os.World}
      → with_found base fuel mem home dir ≡ ok (some db, w')
      → IsStarted fuel home db w'
  unfolding with_found
  with_found-IsStarted fuel mem home (none, w) db e = cc
  with_found-IsStarted fuel mem home (some path, w) db e = with_dir-IsStarted fuel mem w home db e

  -- The server starts only on a database that is its own: if `db_init` returns one, then both files
  -- were looked up or both were made, the one holds the magic bytes and a text, the other the magic
  -- bytes and the digest of the first, the table of users is what `populate_htable` makes of that
  -- text, and there is no session.
  pub db_init-IsStarted :
      (fuel : ℕ) (mem : Mem) (w : os.World) (home : Bytes) {db : Db base} {w' : os.World}
      → db_init base fuel mem w home ≡ ok (some db, w')
      → IsStarted fuel home db w'
  unfolding db_init
  db_init-IsStarted fuel mem w home {db} e =
      let (dir, found, e1) =
        bind_ok (database_dir base mem w home) (λ dir. with_found base fuel (later 7 mem) home dir)
          e in
      with_found-IsStarted fuel (later 7 mem) home dir db e1
