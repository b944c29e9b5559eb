-- ===== src/Db/Removal.antt =====
-- db_remove_user of src/server/server_db.c, alone and followed by db_authenticate_user.
use bsle.Prelude.{
  ◌≡◌, refl, ap, sym, ◌∙◌, Bool, Option, none, some, arith, Bytes, Run, ok, fault, stuck, ◌>>=◌,
  Mem, eq_bytes, eq_bytes_refl, if◌then◌else◌,
}
use bsle.Server.{RetCode, UserAccount}
use bsle.Db.{Base, Db, db_remove_user, remove_found, db_authenticate_user, update_db}
use bsle.Db.Users.{kept, db_authenticate_user_unknown}

module _ (base : Base) where
  open base use {os, sha, users}

  -- What a success of `db_remove_user` means: the user was there, and the entry is gone.
  pub record Removed (db : Db base) (username : Bytes) (db' : Db base) : Type 0 where
    pub user : UserAccount
    pub present : users.get db.users_htable username ≡ some user
    pub dropped : db' ≡ record db { users_htable = (users.del db.users_htable username).1 }

  remove_found-success :
      (mem : Mem) (w : os.World) (db : Db base) (o : Option UserAccount) (t : users.T)
      {db' : Db base} {w' : os.World}
      → remove_found base mem w db o t ≡ ok (RetCode.op_success, db', w')
      → (user : UserAccount) × (o ≡ some user) × (db' ≡ record db { users_htable = t })
  unfolding remove_found
  remove_found-success mem w db none t e = cc
  remove_found-success mem w db (some user) t {db'} e =
      let db'' = record db { users_htable = t } in
      (user, refl, kept base (update_db base mem w db'') db'' db' e)

  pub db_remove_user_success :
      (mem : Mem) (w : os.World) (db : Db base) (username : Bytes) {db' : Db base} {w' : os.World}
      → db_remove_user base mem w db (some username) ≡ ok (RetCode.op_success, db', w')
      → Removed db username db'
  unfolding db_remove_user
  db_remove_user_success mem w db username e =
      let r = users.del db.users_htable username in
      let (user, found, dropped) = remove_found-success mem w db r.0 r.1 e in
      record {
        user = user;
        present = sym (users.del-get db.users_htable username) ∙ found;
        dropped = dropped;
      }

  remove_found-table :
      (mem : Mem) (w : os.World) (db : Db base) (o : Option UserAccount) (t : users.T)
      {code : RetCode} {db' : Db base} {w' : os.World}
      → remove_found base mem w db o t ≡ ok (code, db', w')
      → db'.users_htable ≡ t
  unfolding remove_found
  remove_found-table mem w db none t e = ground arith
  remove_found-table mem w db (some user) t {code} {db'} {w'} e =
      table (update_db base mem w (record db { users_htable = t })) e
    where
      table :
          (r : Run os.World)
          → ◌>>=◌ {B = RetCode × Db base × os.World} r
              (λ w'. ok (RetCode.op_success, record db { users_htable = t }, w'))
            ≡ ok (code, db', w')
          → db'.users_htable ≡ t
      table (ok w1) e = ground arith
      table fault e = cc
      table stuck e = cc

  -- Whatever `db_remove_user` returns for a name, the table is that without the name.
  pub db_remove_user-table :
      (mem : Mem) (w : os.World) (db : Db base) (username : Bytes) {code : RetCode} {db' : Db base}
      {w' : os.World}
      → db_remove_user base mem w db (some username) ≡ ok (code, db', w')
      → db'.users_htable ≡ (users.del db.users_htable username).1
  unfolding db_remove_user
  db_remove_user-table mem w db username e =
      let r = users.del db.users_htable username in remove_found-table mem w db r.0 r.1 e

  -- A removed user is not authenticated with any password, and every other name is found as before.
  pub remove_then_authenticate :
      (mem mem' : Mem) (w : os.World) (db : Db base) (username other : Bytes) (given : Option Bytes)
      {db' : Db base} {w' : os.World}
      → db_remove_user base mem w db (some username) ≡ ok (RetCode.op_success, db', w')
      → (db_authenticate_user base mem' db' (some username) given ≡ ok (RetCode.op_user_auth, none))
        × (users.get db'.users_htable other
            ≡ (if eq_bytes username other then none else users.get db.users_htable other))
  remove_then_authenticate mem mem' w db username other given {db'} e =
      let gone = db_remove_user_success mem w db username e in
      let look = λ (name : Bytes).
        ap (λ (d : Db base). users.get d.users_htable name) gone.dropped
        ∙ users.get-del db.users_htable username name in
      let pick = λ (b : Bool). if b then none else users.get db.users_htable username in
      (
        db_authenticate_user_unknown base mem' db' username given
            (look username ∙ ap pick (eq_bytes_refl username)),
        look other,
      )
