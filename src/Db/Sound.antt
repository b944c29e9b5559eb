-- ===== src/Db/Sound.antt =====
-- An invariant of the table of users of src/server/server_db.c, about db_create_user, db_remove_user,
-- db_update_db and populate_htable.
use bsle.Prelude.{
  All-map, some_injective, ℕ, ◌≤◌, ◌<◌, ◌≡◌, refl, ap, sym, ◌∙◌, true, false, none, some,
  Bool-cases, ◌⊎◌, inl, inr, List, [], ◌∷◌, ◌++◌, arith, Bytes, length, ok, Mem, eq_bytes,
  eq_bytes→eq, if◌then◌else◌, All, Lacks,
}
use bsle.Server.{RetCode, UserAccount}
use bsle.Table.Entries.{All-find}
use bsle.Db.Codec.{db_bytes, magic_bytes, get_stored_data, populate_htable}
use bsle.Db.Codec.Rows.{IsStorable, IsWritable, IsStorable-IsWritable}
use bsle.Db.Codec.Writer.{rows, db_bytes-rows}
use bsle.Db.Codec.RoundTrip.{IsKeyed, accounts, reload}
use bsle.Db.{Base, Db, breaks_cred_rule, db_create_user, db_remove_user, accounts_of}
use bsle.Db.Users.{account, Created, db_create_user_success}
use bsle.Db.Removal.{db_remove_user_success}

-- An account that lies under its own name and whose row can be read back.
pub record IsFiled (name : Bytes) (a : UserAccount) : Type 0 where
  pub own : a.username ≡ name
  pub storable : IsStorable a

filed-entries :
    (es : List (Bytes × UserAccount))
    → All (λ e. IsFiled e.0 e.1) es
    → IsKeyed es × All IsStorable (accounts es)
filed-entries [] filed = (tt, tt)
filed-entries ((j, v) ∷ es) (head, filed) =
    let (keyed, safe) = filed-entries es filed in ((head.own, keyed), (head.storable, safe))

module _ (base : Base) where
  open base use {os, sha, behind, users}

  -- Every account of the table is filed.
  abbrev pub IsSound : users.T → Type 0
  IsSound t = (name : Bytes) (a : UserAccount) → users.get t name ≡ some a → IsFiled name a

  -- A name that a row can hold: no colon, no newline, no 0.
  pub record IsPlain (name : Bytes) : Type 0 where
    pub no_colon : Lacks b':' name
    pub no_newline : Lacks b'\n' name
    pub no_nul : Lacks 0 name

  account-IsStorable :
      (username passwd : Bytes) (permission : ℕ)
      → breaks_cred_rule base username passwd ≡ false
      → IsPlain username
      → permission < 10
      → IsStorable (account base username passwd permission)
  unfolding breaks_cred_rule
  account-IsStorable username passwd permission rule plain digit = record {
    named = λ e. absurd (short_name e);
    short = ground arith;
    no_colon = plain.no_colon;
    no_newline = plain.no_newline;
    no_nul = plain.no_nul;
    one_digit = digit;
    sized = refl;
    full = sha.length-digest passwd;
    bytes = sha.digest-IsByte passwd;
  }
    where
      long : 3 ≤ length username
      long = ground arith

      short_name : username ≡ [] → ⊥
      short_name e = omega (arith, long, ap length e)

  -- A success of `db_create_user` with a plain name and a permission of one digit keeps the table
  -- sound.
  pub db_create_user-IsSound :
      (mem : Mem) (w : os.World) (db : Db base) (username passwd : Bytes) (permission : ℕ)
      {db' : Db base} {w' : os.World}
      → IsSound db.users_htable
      → IsPlain username
      → permission < 10
      → db_create_user base mem w db (some username) (some passwd) permission
        ≡ ok (RetCode.op_success, db', w')
      → IsSound db'.users_htable
  db_create_user-IsSound mem w db username passwd permission {db'} sound plain digit e name a
        found =
      split (Bool-cases (eq_bytes username name))
    where
      made : Created base db username passwd permission db'
      made = db_create_user_success base mem w db username passwd permission e

      acct : UserAccount
      acct = account base username passwd permission

      look :
          users.get db'.users_htable name
          ≡ (if eq_bytes username name then some acct else users.get db.users_htable name)
      look =
          ap (λ (d : Db base). users.get d.users_htable name) made.stored
          ∙ users.get-set db.users_htable username name acct

      split : (eq_bytes username name ≡ true) ⊎ (eq_bytes username name ≡ false) → IsFiled name a
      split (inl same) =
          let here : acct ≡ a = some_injective (rw same at (sym look ∙ found)) in
          rw (← here) (record {
            own = eq_bytes→eq username name same;
            storable = account-IsStorable username passwd permission made.rule plain digit;
          })
      split (inr other) = sound name a (rw other at (sym look ∙ found))

  -- A success of `db_remove_user` keeps the table sound.
  pub db_remove_user-IsSound :
      (mem : Mem) (w : os.World) (db : Db base) (username : Bytes) {db' : Db base} {w' : os.World}
      → IsSound db.users_htable
      → db_remove_user base mem w db (some username) ≡ ok (RetCode.op_success, db', w')
      → IsSound db'.users_htable
  db_remove_user-IsSound mem w db username {db'} sound e name a found =
      split (Bool-cases (eq_bytes username name))
    where
      look :
          users.get db'.users_htable name
          ≡ (if eq_bytes username name then none else users.get db.users_htable name)
      look =
          ap (λ (d : Db base). users.get d.users_htable name)
            (db_remove_user_success base mem w db username e).dropped
          ∙ users.get-del db.users_htable username name

      split : (eq_bytes username name ≡ true) ⊎ (eq_bytes username name ≡ false) → IsFiled name a
      split (inl same) = cc (rw same at (sym look ∙ found))
      split (inr other) = sound name a (rw other at (sym look ∙ found))

  entries-filed :
      (t : users.T)
      → IsSound t
      → IsKeyed (users.entries t) × All IsStorable (accounts (users.entries t))
  entries-filed t sound = filed-entries (users.entries t) (
      All-find IsFiled (users.entries t) (users.entries-Fresh t)
        (λ name a e. sound name a (users.get-entries t name ∙ e)))

  -- For a sound table the buffer of `db_update_db` is never overrun, and the file is the magic bytes
  -- and a row for each account.
  pub db_bytes-IsSound :
      (t : users.T)
      → IsSound t
      → db_bytes (accounts_of base t) ≡ ok (magic_bytes ++ rows (accounts_of base t))
  unfolding accounts_of
  db_bytes-IsSound t sound =
      let l = accounts (users.entries t) in
      db_bytes-rows l
        (All-map IsStorable IsWritable IsStorable-IsWritable l (entries-filed t sound).1)

  -- A server that writes its users and starts again knows the same users. For a sound table: the
  -- text that `db_update_db` writes is accepted by `get_stored_data` and `populate_htable`, if memory
  -- holds a 0 behind it, does not run out and the loop has a round for each account and one more, and every look-up in the
  -- new table gives what it gave in the old one.
  pub reload-IsSound :
      (tail : Bytes) (fuel : ℕ) (mem : Mem) (t : users.T)
      → behind ≡ some tail
      → IsSound t
      → length (accounts_of base t) < fuel
      → ((i : ℕ) → mem i ≡ true)
      → (file stream : Bytes) × (t' : users.T) × (db_bytes (accounts_of base t) ≡ ok file)
        × (get_stored_data mem (some (file, length file)) ≡ some (stream, length stream))
        × (populate_htable users behind fuel mem users.create stream (length stream) ≡ ok (some t'))
        × ((k : Bytes) → users.get t' k ≡ users.get t k)
  unfolding accounts_of
  reload-IsSound tail fuel mem t e sound f m =
      let (keyed, safe) = entries-filed t sound in
      rw e (reload users tail fuel mem t keyed safe f m)
