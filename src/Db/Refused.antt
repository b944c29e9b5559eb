-- ===== src/Db/Refused.antt =====
-- db_create_user of src/server/server_db.c when it does not create the user.
use bsle.Prelude.{
  ℕ, ◌≡◌, ◌≢◌, Option, none, some, Option-cases, Bool-cases, inl, inr, arith, Bytes, length, ok,
  Mem, later,
}
use bsle.Server.{RetCode, Hash, UserAccount}
use bsle.Crypto.{hash_byte_array}
use bsle.Db.{Base, Db, breaks_cred_rule, add_account, create_checked, db_create_user, update_db}
use bsle.Db.Users.{kept_code}

module _ (base : Base) where
  open base use {os, sha, users}

  add_account_failed :
      (mem : Mem) (w : os.World) (db : Db base) (username : Bytes) (permission : ℕ)
      (h : Option Hash) {code : RetCode} {db' : Db base} {w' : os.World}
      → code ≢ RetCode.op_success
      → add_account base mem w db username permission h ≡ ok (code, db', w')
      → (db' ≡ db) × (w' ≡ w)
  unfolding add_account
  add_account_failed mem w db username permission none ne e = (ground arith, ground arith)
  add_account_failed mem w db username permission (some hash) {db' = db'} ne e =
      elim (Bool-cases (mem 0)) [
        | inl m ↦
            let acct : UserAccount = record {
              username = username;
              permission = permission;
              hash = hash;
            } in
            let stored = record db { users_htable = users.set db.users_htable username acct } in
            absurd
              (ne (kept_code base (update_db base (later 1 mem) w stored) stored db' (rw m at e)))
        | inr m ↦ (ground (arith, rw m at e), ground (arith, rw m at e))
      ]

  -- Whatever code but OP_SUCCESS `db_create_user` returns, it leaves the database and the files as
  -- they were: NULL arguments, a broken rule, a name that is taken, and memory that runs out.
  pub db_create_user_failed :
      (mem : Mem) (w : os.World) (db : Db base) (username passwd : Option Bytes) (permission : ℕ)
      {code : RetCode} {db' : Db base} {w' : os.World}
      → code ≢ RetCode.op_success
      → db_create_user base mem w db username passwd permission ≡ ok (code, db', w')
      → (db' ≡ db) × (w' ≡ w)
  unfolding db_create_user create_checked
  db_create_user_failed mem w db none passwd permission ne e = (ground arith, ground arith)
  db_create_user_failed mem w db (some username) none permission ne e = (ground arith, ground arith)
  db_create_user_failed mem w db (some username) (some passwd) permission ne e =
      elim (Bool-cases (breaks_cred_rule base username passwd)) [
        | inl broken ↦ (ground (arith, rw broken at e), ground (arith, rw broken at e))
        | inr rule ↦ elim (Option-cases (users.get db.users_htable username)) [
          | inr (a, taken) ↦
              let e' = rw (taken) at (rw rule at e) in (ground (arith, e'), ground (arith, e'))
          | inl absent ↦ elim (Bool-cases (mem 0)) [
            | inl m ↦
                add_account_failed (later 3 mem) w db username permission
                  (hash_byte_array sha (later 1 mem) (some passwd) (length passwd)) ne
                  (rw m at (rw absent at (rw rule at e)))
            | inr m ↦
                let e' = rw m at (rw absent at (rw rule at e)) in
                (ground (arith, e'), ground (arith, e'))
          ]
        ]
      ]
