-- ===== src/Db/Users.antt =====
-- db_create_user and db_authenticate_user of src/server/server_db.c, alone and one after the other.
use bsle.Prelude.{
  ℕ, ◌≡◌, refl, ap, sym, ◌∙◌, Bool, true, false, Option, none, some, Option-cases, Bool-cases, ◌⊎◌,
  inl, inr, arith, Bytes, length, Run, ok, fault, stuck, ◌>>=◌, Mem, later, eq_bytes, eq_bytes_refl,
  if◌then◌else◌,
}
use bsle.Server.{RetCode, Hash, UserAccount}
use bsle.Crypto.{hash_byte_array, hash_hash_t_match}
use bsle.Crypto.Compare.{
  IsSized, hash_byte_array-digest, hash_byte_array-some, hash_hash_t_match-eq_bytes,
}
use bsle.Db.{
  Base, Db, breaks_cred_rule, add_account, create_checked, db_create_user, check_password,
  db_authenticate_user, update_db,
}

module _ (base : Base) where
  open base use {os, sha, users}

  -- The account that `db_create_user` makes.
  abbrev pub account : Bytes → Bytes → ℕ → UserAccount
  account username passwd permission = record {
    username = username;
    permission = permission;
    hash = record { size = 32; array = sha.digest passwd };
  }

  -- A stored user whose hash has the size of its array is authenticated, when the two allocations
  -- succeed, exactly if the digest of the password is the stored one; then it is the stored
  -- account that is returned, and else none.
  pub db_authenticate_user-digest :
      (mem : Mem) (db : Db base) (username passwd : Bytes) (user : UserAccount)
      → users.get db.users_htable username ≡ some user
      → IsSized user.hash
      → mem 0 ≡ true
      → mem 1 ≡ true
      → db_authenticate_user base mem db (some username) (some passwd)
        ≡ ok (
            if eq_bytes user.hash.array (sha.digest passwd)
            then (RetCode.op_success, some user)
            else (RetCode.op_user_auth, none))
  unfolding db_authenticate_user check_password
  db_authenticate_user-digest mem db username passwd user found sized m0 m1 =
      let h : Hash = record { size = 32; array = sha.digest passwd } in
      rw (found, db_authenticate_user)
        (rw (hash_byte_array-digest sha mem passwd (length passwd) m0 m1, check_password)
          (rw (hash_hash_t_match-eq_bytes user.hash h sized (sym (sha.length-digest passwd)))))

  -- An unknown user and a missing password get the same answer, and no account.
  pub db_authenticate_user_unknown :
      (mem : Mem) (db : Db base) (username : Bytes) (passwd : Option Bytes)
      → users.get db.users_htable username ≡ none
      → db_authenticate_user base mem db (some username) passwd ≡ ok (RetCode.op_user_auth, none)
  unfolding db_authenticate_user
  db_authenticate_user_unknown mem db username none absent = refl
  db_authenticate_user_unknown mem db username (some passwd) absent =
      rw (absent, db_authenticate_user)

  -- What the comparison of the hashes says about the account that is returned.
  matched_same :
      (user given : UserAccount) (r : Run Bool)
      → ◌>>=◌ {B = RetCode × Option UserAccount} r (λ auth.
        ok (if auth then (RetCode.op_success, some given) else (RetCode.op_user_auth, none)))
        ≡ ok (RetCode.op_success, some user)
      → given ≡ user
  matched_same user given (ok true) e = ground arith
  matched_same user given (ok false) e = cc
  matched_same user given fault e = cc
  matched_same user given stuck e = cc

  checked_same :
      (mem : Mem) (given user : UserAccount) (passwd : Bytes)
      → check_password base mem given passwd ≡ ok (RetCode.op_success, some user)
      → given ≡ user
  unfolding check_password
  checked_same mem given user passwd e =
      elim (Option-cases (hash_byte_array sha mem (some passwd) (length passwd))) [
        | inl absent ↦ cc (rw (absent, check_password) at e)
        | inr (h, made) ↦
            matched_same user given (hash_hash_t_match (some given.hash) (some h))
              (rw (made, check_password) at e)
      ]

  -- Who is authenticated is the stored user of that name.
  pub db_authenticate_user_stored :
      (mem : Mem) (db : Db base) (username passwd : Option Bytes) (user : UserAccount)
      → db_authenticate_user base mem db username passwd ≡ ok (RetCode.op_success, some user)
      → (name : Bytes) × (users.get db.users_htable name ≡ some user)
  unfolding db_authenticate_user
  db_authenticate_user_stored mem db none passwd user e = cc
  db_authenticate_user_stored mem db (some name) none user e = cc
  db_authenticate_user_stored mem db (some name) (some passwd) user e =
      elim (Option-cases (users.get db.users_htable name)) [
        | inl absent ↦ cc (rw (absent, db_authenticate_user) at e)
        | inr (given, is) ↦
            let same = checked_same mem given user passwd (rw (is, db_authenticate_user) at e) in
            (name, is ∙ ap (λ (u : UserAccount). some u) same)
      ]

  matched_true :
      (user given : UserAccount) (r : Run Bool)
      → ◌>>=◌ {B = RetCode × Option UserAccount} r (λ auth.
        ok (if auth then (RetCode.op_success, some given) else (RetCode.op_user_auth, none)))
        ≡ ok (RetCode.op_success, some user)
      → r ≡ ok true
  matched_true user given (ok true) e = refl
  matched_true user given (ok false) e = cc
  matched_true user given fault e = cc
  matched_true user given stuck e = cc

  checked_digest :
      (mem : Mem) (given user : UserAccount) (passwd : Bytes)
      → IsSized given.hash
      → check_password base mem given passwd ≡ ok (RetCode.op_success, some user)
      → eq_bytes given.hash.array (sha.digest passwd) ≡ true
  unfolding check_password
  checked_digest mem given user passwd sized e =
      elim (Option-cases (hash_byte_array sha mem (some passwd) (length passwd))) [
        | inl absent ↦ cc (rw (absent, check_password) at e)
        | inr (h, made) ↦
            let is = hash_byte_array-some sha mem passwd (length passwd) made in
            let own : Hash = record { size = 32; array = sha.digest passwd } in
            let compared =
              hash_hash_t_match-eq_bytes given.hash own sized (sym (sha.length-digest passwd)) in
            let matched =
              matched_true user given (hash_hash_t_match (some given.hash) (some h))
                (rw (made, check_password) at e) in
            let passed = rw is at matched in ground (arith, compared, passed)
      ]

  -- Who is authenticated gave a stored name, and a password whose digest is the one stored for it.
  pub db_authenticate_user_known :
      (mem : Mem) (db : Db base) (username passwd : Option Bytes) (user : UserAccount)
      → ((name : Bytes) (a : UserAccount)
          → users.get db.users_htable name ≡ some a
          → IsSized a.hash)
      → db_authenticate_user base mem db username passwd ≡ ok (RetCode.op_success, some user)
      → (name given : Bytes) × (username ≡ some name)
        × (passwd ≡ some given)
        × (users.get db.users_htable name ≡ some user)
        × (eq_bytes user.hash.array (sha.digest given) ≡ true)
  unfolding db_authenticate_user
  db_authenticate_user_known mem db none passwd user sized e = cc
  db_authenticate_user_known mem db (some name) none user sized e = cc
  db_authenticate_user_known mem db (some name) (some passwd) user sized e =
      elim (Option-cases (users.get db.users_htable name)) [
        | inl absent ↦ cc (rw (absent, db_authenticate_user) at e)
        | inr (given, is) ↦
            let e' = rw (is, db_authenticate_user) at e in
            let same = checked_same mem given user passwd e' in
            let digest = checked_digest mem given user passwd (sized name given is) e' in
            (
              name,
              passwd,
              refl,
              refl,
              is ∙ ap (λ (u : UserAccount). some u) same,
              ap (λ (u : UserAccount). eq_bytes u.hash.array (sha.digest passwd)) (sym same)
                  ∙ digest,
            )
      ]

  -- What a success of `db_create_user` means.
  pub record Created (db : Db base) (username passwd : Bytes) (permission : ℕ) (db' : Db base)
      : Type 0 where
    pub rule : breaks_cred_rule base username passwd ≡ false
    pub absent : users.get db.users_htable username ≡ none
    pub stored : db' ≡ record db {
      users_htable = users.set db.users_htable username (account username passwd permission);
    }

  -- The database that a chain ends with is the one that it was given.
  pub kept :
      {W : Type 0} (m : Run W) (db db' : Db base) {w' : W}
      → ◌>>=◌ {B = RetCode × Db base × W} m (λ w. ok (RetCode.op_success, db, w))
        ≡ ok (RetCode.op_success, db', w')
      → db' ≡ db
  kept (ok w) db db' e = ground arith
  kept fault db db' e = cc
  kept stuck db db' e = cc

  pub kept_code :
      {W : Type 0} (m : Run W) (db db' : Db base) {code : RetCode} {w' : W}
      → ◌>>=◌ {B = RetCode × Db base × W} m (λ w. ok (RetCode.op_success, db, w))
        ≡ ok (code, db', w')
      → code ≡ RetCode.op_success
  kept_code (ok w) db db' e = ground arith
  kept_code fault db db' e = cc
  kept_code stuck db db' e = cc

  pub add_account-success :
      (mem : Mem) (w : os.World) (db : Db base) (username passwd : Bytes) (permission : ℕ)
      (h : Option Hash) {db' : Db base} {w' : os.World}
      → ((hash : Hash) → h ≡ some hash → hash ≡ record { size = 32; array = sha.digest passwd })
      → add_account base mem w db username permission h ≡ ok (RetCode.op_success, db', w')
      → db' ≡ record db {
        users_htable = users.set db.users_htable username (account username passwd permission);
      }
  unfolding add_account
  add_account-success mem w db username passwd permission none digest e = cc
  add_account-success mem w db username passwd permission (some hash) {db'} digest e =
      let stored = record db {
        users_htable =
            users.set db.users_htable username
              (record { username = username; permission = permission; hash = hash });
      } in
      elim (Bool-cases (mem 0)) [
        | inl m ↦
            kept (update_db base (later 1 mem) w stored) stored db' (rw m at e)
            ∙ ap
                (λ (h : Hash). record db {
                  users_htable =
                      users.set db.users_htable username
                        (record { username = username; permission = permission; hash = h });
                })
                (digest hash refl)
        | inr m ↦ cc (rw m at e)
      ]

  -- A user is created only if the lengths of name and password keep the rule and the name is free, and
  -- then the table differs in one entry: the digest of the password, under the name.
  pub db_create_user_success :
      (mem : Mem) (w : os.World) (db : Db base) (username passwd : Bytes) (permission : ℕ)
      {db' : Db base} {w' : os.World}
      → db_create_user base mem w db (some username) (some passwd) permission
        ≡ ok (RetCode.op_success, db', w')
      → Created db username passwd permission db'
  unfolding db_create_user create_checked
  db_create_user_success mem w db username passwd permission {db'} {w'} e =
      elim (Bool-cases (breaks_cred_rule base username passwd)) [
        | inl broken ↦ cc (rw broken at e)
        | inr rule ↦ checked rule (Option-cases (users.get db.users_htable username)) (rw rule at e)
      ]
    where
      checked :
          breaks_cred_rule base username passwd ≡ false
          → (users.get db.users_htable username ≡ none)
            ⊎ ((a : UserAccount) × (users.get db.users_htable username ≡ some a))
          → create_checked base mem w db username passwd permission
              (users.get db.users_htable username)
            ≡ ok (RetCode.op_success, db', w')
          → Created db username passwd permission db'
      checked rule (inr (a, taken)) e = cc (rw taken at e)
      checked rule (inl absent) e = elim (Bool-cases (mem 0)) [
        | inl m ↦ record {
          rule = rule;
          absent = absent;
          stored =
              add_account-success (later 3 mem) w db username passwd permission
                (hash_byte_array sha (later 1 mem) (some passwd) (length passwd))
                (λ h. hash_byte_array-some sha (later 1 mem) passwd (length passwd))
                (rw m at (rw absent at e));
        }
        | inr m ↦ cc (rw m at (rw absent at e))
      ]

  -- A user who was just created is authenticated, when the two allocations of that succeed, with
  -- the password that was given, and with another password exactly if the digests agree.
  pub create_then_authenticate :
      (mem mem' : Mem) (w : os.World) (db : Db base) (username passwd given : Bytes)
      (permission : ℕ) {db' : Db base} {w' : os.World}
      → db_create_user base mem w db (some username) (some passwd) permission
        ≡ ok (RetCode.op_success, db', w')
      → mem' 0 ≡ true
      → mem' 1 ≡ true
      → db_authenticate_user base mem' db' (some username) (some given)
        ≡ ok (
            if eq_bytes (sha.digest passwd) (sha.digest given)
            then (RetCode.op_success, some (account username passwd permission))
            else (RetCode.op_user_auth, none))
  create_then_authenticate mem mem' w db username passwd given permission {db'} e m0 m1 =
      let made = db_create_user_success mem w db username passwd permission e in
      let acct = account username passwd permission in
      let found : users.get db'.users_htable username ≡ some acct =
        ap (λ (d : Db base). users.get d.users_htable username) made.stored
        ∙ users.get-set db.users_htable username username acct
        ∙ ap (λ (b : Bool). if b then some acct else users.get db.users_htable username)
            (eq_bytes_refl username) in
      db_authenticate_user-digest mem' db' username given acct found
        (sym (sha.length-digest passwd)) m0 m1
