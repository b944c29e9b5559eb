-- ===== src/Db/Change.antt =====
-- What db_create_user and db_remove_user of src/server/server_db.c can do to the table of users.
use bsle.Prelude.{
  some_injective, ℕ, ◌≤◌, ◌≡◌, ◌≢◌, ◌⊎◌, inl, inr, refl, sym, ap, ◌∙◌, Bool-cases, Option, none,
  some, false, Bytes, ok, Mem, eq_bytes, eq_bytes→eq, arith,
}
use bsle.Server.{perm_admin, RetCode, UserAccount}
use bsle.Db.{Base, Db, breaks_cred_rule, db_create_user, db_remove_user}
use bsle.Db.Users.{account, db_create_user_success}
use bsle.Db.Refused.{db_create_user_failed}
use bsle.Db.Removal.{db_remove_user-table}

success_or : (code : RetCode) → (code ≡ RetCode.op_success) ⊎ (code ≢ RetCode.op_success)
success_or RetCode.op_success = inl refl
success_or _ = inr (λ e. cc)

module _ (base : Base) where
  open base use {os, users}

  -- One table becomes another on behalf of someone with the permission `limit`: nothing happens, a
  -- user is made with at most that permission, or a name is removed, with the permission ADMIN.
  pub data Change (limit : ℕ) (t t' : users.T) : Type 0 where
    unchanged : t' ≡ t → Change limit t t'
    created :
        (username passwd : Bytes) (permission : ℕ)
        → breaks_cred_rule base username passwd ≡ false
        → users.get t username ≡ none
        → permission ≤ limit
        → t' ≡ users.set t username (account base username passwd permission)
        → Change limit t t'
    removed :
        (username : Bytes) → limit ≡ perm_admin → t' ≡ (users.del t username).1 → Change limit t t'

  -- What a look-up gives after a change: what it gave before, or the new account.
  pub data Found (limit : ℕ) (t : users.T) (name : Bytes) (a : UserAccount) : Type 0 where
    old : users.get t name ≡ some a → Found limit t name a
    new :
        (passwd : Bytes) (permission : ℕ)
        → breaks_cred_rule base name passwd ≡ false
        → permission ≤ limit
        → account base name passwd permission ≡ a
        → Found limit t name a

  pub Change-Found :
      (limit : ℕ) (t t' : users.T) (name : Bytes) (a : UserAccount)
      → Change limit t t'
      → users.get t' name ≡ some a
      → Found limit t name a
  Change-Found limit t t' name a (unchanged e) found =
      old (ap (λ (u : users.T). users.get u name) (sym e) ∙ found)
  Change-Found limit t t' name a (created username passwd permission rule absent low e) found =
      let acct = account base username passwd permission in
      let look =
        sym (users.get-set t username name acct)
        ∙ ap (λ (u : users.T). users.get u name) (sym e)
        ∙ found in
      elim (Bool-cases (eq_bytes username name)) [
        | inl same ↦
            let is : username ≡ name = eq_bytes→eq username name same in
            let made : acct ≡ a = some_injective (rw same at look) in
            new passwd permission (rw (← is) rule) low (rw (← is) made)
        | inr other ↦ old (rw other at look)
      ]
  Change-Found limit t t' name a (removed username admin e) found =
      let look =
        sym (users.get-del t username name)
        ∙ ap (λ (u : users.T). users.get u name) (sym e)
        ∙ found in
      elim (Bool-cases (eq_bytes username name)) [
        | inl same ↦ cc (rw same at look)
        | inr other ↦ old (rw other at look)
      ]

  made-Change :
      (mem : Mem) (w : os.World) (db : Db base) (username passwd : Option Bytes)
      (permission limit : ℕ) {db' : Db base} {w' : os.World}
      → permission ≤ limit
      → db_create_user base mem w db username passwd permission ≡ ok (RetCode.op_success, db', w')
      → Change limit db.users_htable db'.users_htable
  unfolding db_create_user
  made-Change mem w db none passwd permission limit low e = cc
  made-Change mem w db (some username) none permission limit low e = cc
  made-Change mem w db (some username) (some passwd) permission limit low e =
      let made = db_create_user_success base mem w db username passwd permission e in
      created username passwd permission made.rule made.absent low
        (ap (λ (d : Db base). d.users_htable) made.stored)

  pub db_create_user-Change :
      (mem : Mem) (w : os.World) (db : Db base) (username passwd : Option Bytes)
      (permission limit : ℕ) {code : RetCode} {db' : Db base} {w' : os.World}
      → permission ≤ limit
      → db_create_user base mem w db username passwd permission ≡ ok (code, db', w')
      → Change limit db.users_htable db'.users_htable
  db_create_user-Change mem w db username passwd permission limit {code} low e =
      elim (success_or code) [
        | inr ne ↦ unchanged (
            ap (λ (d : Db base). d.users_htable)
              (db_create_user_failed base mem w db username passwd permission ne e).0)
        | inl s ↦ made-Change mem w db username passwd permission limit low (rw s at e)
      ]

  pub db_remove_user-Change :
      (mem : Mem) (w : os.World) (db : Db base) (username : Option Bytes) (limit : ℕ)
      {code : RetCode} {db' : Db base} {w' : os.World}
      → limit ≡ perm_admin
      → db_remove_user base mem w db username ≡ ok (code, db', w')
      → Change limit db.users_htable db'.users_htable
  unfolding db_remove_user
  db_remove_user-Change mem w db none limit {code} {db'} admin e =
      let same : db'.users_htable ≡ db.users_htable = ground arith in unchanged same
  db_remove_user-Change mem w db (some username) limit admin e =
      removed username admin (db_remove_user-table base mem w db username e)
