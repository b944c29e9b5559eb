-- ===== src/Db/Init/Loaded.antt =====
-- What a success of db_init of src/server/server_db.c says about the files and the tables.
use bsle.Prelude.{
  ℕ, ◌≡◌, ◌∙◌, ap, sym, Bool-cases, inl, inr, false, Option, Option-cases, none, some,
  some_injective, Bytes, ◌++◌, length, ok, ◌>>=◌, bind_ok, Mem, later, eq_bytes, eq_bytes→eq,
  if◌then◌else◌,
}
use bsle.Server.{RetCode, Hash}
use bsle.Crypto.{hash_bytes_match}
use bsle.Crypto.Compare.{IsSized, hash_bytes_match-eq_bytes}
use bsle.FileApi.{FileContent}
use bsle.FileApi.Read.{ReadResult, f_read_file}
use bsle.FileApi.Read.Content.{IsRead, f_read_file-IsRead}
use bsle.Db.{Base, Db}
use bsle.Db.Codec.{magic_bytes, get_stored_data, get_stored_hash, populate_htable}
use bsle.Db.Codec.Stored.{IsStored, get_stored_data-IsStored, get_stored_hash-IsStored}
use bsle.Db.Init.{first_read, checked_data, db_made, open_db, load_files, both_read}

module _ (base : Base) where
  open base use {os, sha, behind, users, sessions}

  -- The database file is the magic bytes and a text, and the other file the magic bytes and its digest.
  pub record IsChecked (contents stored : FileContent) (text : Bytes) : Type 0 where
    pub text_magic : contents.stream ≡ magic_bytes ++ text
    pub digest : stored.stream ≡ magic_bytes ++ sha.digest contents.stream

  -- Contents that were read have a hash whose size is that of its array.
  IsRead-IsSized : (c : FileContent) → IsRead sha c → IsSized c.hash
  IsRead-IsSized c read = rw (read.hashed) (sym (sha.length-digest c.stream))

  -- What the comparison lets through.
  compared :
      (mem : Mem) (c : FileContent) (stream text : Bytes) (n : ℕ)
      → IsRead sha c
      → (hash_bytes_match (some c.hash) (some stream) (length stream) >>= λ same.
          ok (if same then get_stored_data mem (some (c.stream, c.stream_size)) else none))
        ≡ ok (some (text, n))
      → (stream ≡ sha.digest c.stream) × IsStored c.stream text n
  compared mem c stream text n read e =
      let e1 = rw (hash_bytes_match-eq_bytes c.hash stream (IsRead-IsSized c read)) at e in
      elim (Bool-cases (eq_bytes c.hash.array stream)) [
        | inr other ↦ cc (rw other at e1)
        | inl same ↦
            let array : c.hash.array ≡ sha.digest c.stream =
              ap (λ (h : Hash). h.array) read.hashed in
            let kept : get_stored_data mem (some (c.stream, length c.stream)) ≡ some (text, n) =
              rw (← read.size) (cc (rw same at e1)) in
            (
              sym (eq_bytes→eq c.hash.array stream same) ∙ array,
              get_stored_data-IsStored mem c.stream text n kept,
            )
      ]

  checked_data-IsChecked :
      (mem : Mem) (c s : FileContent) (text : Bytes) (n : ℕ)
      → IsRead sha c
      → IsRead sha s
      → checked_data base mem c s ≡ ok (some (text, n))
      → IsChecked c s text × (n ≡ length text)
  unfolding checked_data
  checked_data-IsChecked mem c s text n read_c read_s e =
      elim (Option-cases (get_stored_hash mem (some (s.stream, s.stream_size)))) [
        | inl absent ↦ cc (rw (absent, checked_data) at e)
        | inr ((stream, size), got) ↦
            let split : IsStored s.stream stream size =
              get_stored_hash-IsStored mem s.stream stream size (rw (read_s.size) at got) in
            let (digest, file) =
              compared (later 1 mem) c stream text n read_c
                (rw (split.size) at (rw (got, checked_data) at e)) in
            (
              record {
                text_magic = file.split;
                digest = split.split ∙ ap (λ (l : Bytes). magic_bytes ++ l) digest;
              },
              file.size,
            )
      ]

  -- The tables as they are made from the text.
  pub record IsOpened (fuel : ℕ) (dir text : Bytes) (db : Db base) : Type 0 where
    pub mem : Mem
    pub table :
        populate_htable users behind fuel mem users.create text (length text)
        ≡ ok (some db.users_htable)
    pub no_session : db.sesh_htable ≡ sessions.create
    pub home : db.home_dir ≡ dir
    pub writes : db.debug ≡ false

  db_made-IsOpened :
      (fuel : ℕ) (mem : Mem) (home text : Bytes) (filled : Option users.T) (db : Db base)
      → populate_htable users behind fuel (later 3 mem) users.create text (length text) ≡ ok filled
      → db_made base mem home filled ≡ some db
      → IsOpened fuel home text db
  unfolding db_made
  db_made-IsOpened fuel mem home text none db p e = cc
  db_made-IsOpened fuel mem home text (some table) db p e = elim (Bool-cases (mem 1)) [
    | inr m ↦ cc (rw m at e)
    | inl m1 ↦ elim (Bool-cases (mem 2)) [
      | inr m ↦ cc (rw m at (rw m1 at e))
      | inl m2 ↦
          let same = some_injective (rw m2 at (rw m1 at e)) in
          record {
            mem = later 3 mem;
            table = p ∙ ap (λ (d : Db base). ok (some d.users_htable)) same;
            no_session = ap (λ (d : Db base). d.sesh_htable) (sym same);
            home = ap (λ (d : Db base). d.home_dir) (sym same);
            writes = ap (λ (d : Db base). d.debug) (sym same);
          }
    ]
  ]

  open_db-IsOpened :
      (fuel : ℕ) (mem : Mem) (home text : Bytes) (db : Db base)
      → open_db base fuel mem home (some (text, length text)) ≡ ok (some db)
      → IsOpened fuel home text db
  unfolding open_db
  open_db-IsOpened fuel mem home text db e = elim (Bool-cases (mem 0)) [
    | inr m ↦ cc (rw m at e)
    | inl m0 ↦
        let (filled, p, made) =
          bind_ok (populate_htable users behind fuel (later 3 mem) users.create text (length text))
            (λ filled. ok (db_made base mem home filled)) (rw m0 at e) in
        db_made-IsOpened fuel mem home text filled db p cc
  ]

  -- The two files that the tables come from, as they were read one after the other.
  pub record IsLoaded (fuel : ℕ) (w : os.World) (dir : Bytes) (files : Bytes × Bytes) (db : Db base)
      (w' : os.World) : Type 0 where
    pub contents : FileContent
    pub stored : FileContent
    pub text : Bytes
    pub between : os.World
    pub mem : Mem
    pub mem' : Mem
    pub code : RetCode
    pub code' : RetCode
    pub read_db : f_read_file os sha mem w (some files.0) ≡ ok ((code, some contents), between)
    pub read_hash : f_read_file os sha mem' between (some files.1) ≡ ok ((code', some stored), w')
    pub checked : IsChecked contents stored text
    pub tables : IsOpened fuel dir text db

  -- With the check done.
  IsOpened-after :
      (fuel : ℕ) (mem : Mem) (home : Bytes) (c s : FileContent) (o : Option (Bytes × ℕ))
      (db : Db base)
      → IsRead sha c
      → IsRead sha s
      → checked_data base mem c s ≡ ok o
      → open_db base fuel (later 2 mem) home o ≡ ok (some db)
      → (text : Bytes) × IsChecked c s text × IsOpened fuel home text db
  unfolding open_db
  IsOpened-after fuel mem home c s none db read_c read_s check e = cc
  IsOpened-after fuel mem home c s (some (text, n)) db read_c read_s check e =
      let (checked, size) = checked_data-IsChecked mem c s text n read_c read_s check in
      (text, checked, open_db-IsOpened fuel (later 2 mem) home text db (rw (← size) e))

  both_read-opened :
      (fuel : ℕ) (mem : Mem) (home : Bytes) (c s : FileContent) (code : RetCode) (w : os.World)
      (db : Db base) {w' : os.World}
      → both_read base fuel mem home c ((code, some s), w) ≡ ok (some db, w')
      → (o : Option (Bytes × ℕ)) × (checked_data base mem c s ≡ ok o)
        × (open_db base fuel (later 2 mem) home o ≡ ok (some db))
        × (w ≡ w')
  unfolding both_read
  both_read-opened fuel mem home c s code w db e =
      let (o, check, e1) =
        bind_ok (checked_data base mem c s)
          (λ o. open_db base fuel (later 2 mem) home o >>= λ d. ok (d, w)) e in
      let (d, opened, e2) = bind_ok (open_db base fuel (later 2 mem) home o) (λ d. ok (d, w)) e1 in
      (o, check, cc, cc)

  both_read-IsLoaded :
      (fuel : ℕ) (mem m m' : Mem) (home : Bytes) (files : Bytes × Bytes) (w : os.World)
      (db : Db base) (c : FileContent) (code : RetCode) (between : os.World)
      (h : ReadResult × os.World) {w' : os.World}
      → f_read_file os sha m w (some files.0) ≡ ok ((code, some c), between)
      → f_read_file os sha m' between (some files.1) ≡ ok h
      → both_read base fuel mem home c h ≡ ok (some db, w')
      → IsLoaded fuel w home files db w'
  unfolding both_read
  both_read-IsLoaded fuel mem m m' home files w db c code between ((code', none), w'') rc rs e = cc
  both_read-IsLoaded fuel mem m m' home files w db c code between ((code', some s), w'') rc rs e =
      let read_c = f_read_file-IsRead os sha m w (some files.0) rc in
      let read_s = f_read_file-IsRead os sha m' between (some files.1) rs in
      let (o, check, opened, same) = both_read-opened fuel mem home c s code' w'' db e in
      let (text, checked, tables) =
        IsOpened-after fuel mem home c s o db read_c read_s check opened in
      record {
        contents = c;
        stored = s;
        text = text;
        between = between;
        mem = m;
        mem' = m';
        code = code;
        code' = code';
        read_db = rc;
        read_hash = cc;
        checked = checked;
        tables = tables;
      }

  first_read-IsLoaded :
      (fuel : ℕ) (mem m : Mem) (w : os.World) (home : Bytes) (files : Bytes × Bytes) (db : Db base)
      (r : ReadResult × os.World) {w' : os.World}
      → f_read_file os sha m w (some files.0) ≡ ok r
      → first_read base fuel mem home files.1 r ≡ ok (some db, w')
      → IsLoaded fuel w home files db w'
  unfolding first_read
  first_read-IsLoaded fuel mem m w home files db ((code, none), w1) rc e = cc
  first_read-IsLoaded fuel mem m w home files db ((code, some c), w1) rc e =
      let (h, rs, e1) =
        bind_ok (f_read_file os sha mem w1 (some files.1))
          (λ h. both_read base fuel (later 5 mem) home c h) e in
      both_read-IsLoaded fuel (later 5 mem) m mem home files w db c code w1 h rc rs e1

  pub load_files-IsLoaded :
      (fuel : ℕ) (mem : Mem) (w : os.World) (home : Bytes) (files : Bytes × Bytes) (db : Db base)
      {w' : os.World}
      → load_files base fuel mem w home (some files) ≡ ok (some db, w')
      → IsLoaded fuel w home files db w'
  unfolding load_files
  load_files-IsLoaded fuel mem w home files db e =
      let (r, rc, e1) =
        bind_ok (f_read_file os sha mem w (some files.0))
          (λ r. first_read base fuel (later 5 mem) home files.1 r) e in
      first_read-IsLoaded fuel (later 5 mem) mem w home files db r rc e1
