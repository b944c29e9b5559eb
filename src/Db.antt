-- ===== src/Db.antt =====
-- src/server/server_db.c: the user database and the table of sessions.
-- The two hash tables are values of the tables that the module takes; a user account is stored under
-- its name, and under a session's number its time, or NULL. An operation returns its code, the database and
-- the file system as it leaves them.
pub mod Codec
pub mod Files
pub mod Users
pub mod Refused
pub mod Removal
pub mod Change
pub mod Init
pub mod Abstract
pub mod Sound
pub mod Registered
pub mod Made
pub mod Threads
use bsle.Prelude.{
  ℕ, ◌+◌, Bool, true, false, ◌||◌, Option, none, some, List, [], ◌∷◌, map, Bytes, length, Run, ok,
  fault, ◌>>=◌, Mem, later, ltb, ◌==◌, eq_bytes, if◌then◌else◌,
}
use bsle.Server.{
  RetCode, Hash, UserAccount, max_passwd_len, min_passwd_len, max_username_len, min_username_len,
}
use bsle.Crypto.{Sha256, hash_byte_array, hash_hash_t_match}
use bsle.Os.{Os}
use bsle.Table.{Table}
use bsle.Db.Files.{db_update_db}

abbrev pub eq_session : ℕ → ℕ → Bool
eq_session a b = a == b

-- What the server stands on: the file system, the digest and the two tables.
pub record Base : Type 1 where
  pub os : Os
  pub sha : Sha256
  -- What memory holds behind the block that `get_stored_data` allocates, which has no terminator: the
  -- characters up to a 0, or `none` if there is no 0 before the end of the memory that may be read.
  pub behind : Option Bytes
  pub users : Table Bytes UserAccount eq_bytes
  pub sessions : Table ℕ (Option ℕ) eq_session

module _ (base : Base) where
  open base use {os, sha, users, sessions}

  -- `db_t`
  pub record Db : Type 0 where
    pub users_htable : users.T
    pub sesh_htable : sessions.T
    pub home_dir : Bytes
    pub debug : Bool

  -- The values of a table of users, in the order of its iterator.
  unfoldable pub accounts_of : users.T → List UserAccount
  accounts_of t = map (λ e. e.1) (users.entries t)

  -- `db_update_db(p_db)`
  pub update_db : Mem → os.World → Db → Run os.World
  unfolding accounts_of
  update_db mem w db = db_update_db os sha mem w db.home_dir db.debug (accounts_of db.users_htable)

  abbrev pub Reply : Type 0
  Reply = RetCode × Db × os.World

  remove_found : Mem → os.World → Db → Option UserAccount → users.T → Run Reply
  unfolding update_db
  remove_found mem w db none t = ok (RetCode.op_user_no_exist, record db { users_htable = t }, w)
  remove_found mem w db (some user) t =
      let db' = record db { users_htable = t } in
      update_db mem w db' >>= λ w'. ok (RetCode.op_success, db', w')

  unfoldable pub db_remove_user : Mem → os.World → Db → Option Bytes → Run Reply
  unfolding remove_found
  db_remove_user mem w db none = ok (RetCode.op_failure, db, w)
  db_remove_user mem w db (some username) =
      let (user, t) = users.del db.users_htable username in remove_found mem w db user t

  -- The rule on the lengths of a name and a password, broken.
  unfoldable pub breaks_cred_rule : Bytes → Bytes → Bool
  breaks_cred_rule username passwd =
      ltb max_passwd_len (length passwd)
      || ltb (length passwd) min_passwd_len
      || ltb max_username_len (length username)
      || ltb (length username) min_username_len

  -- The new account is stored and the file written.
  pub add_account : Mem → os.World → Db → Bytes → ℕ → Option Hash → Run Reply
  unfolding update_db
  add_account mem w db username permission none = ok (RetCode.op_failure, db, w)
  add_account mem w db username permission (some hash) =
      let acct : UserAccount = record {
        username = username;
        permission = permission;
        hash = hash;
      } in
      let db' = record db { users_htable = users.set db.users_htable username acct } in
      if mem 0
      then update_db (later 1 mem) w db' >>= (λ w'. ok (RetCode.op_success, db', w'))
      else ok (RetCode.op_failure, db, w)

  -- The allocations are the copy of the name, the two of the hash, the account, and those of the file.
  unfoldable pub create_checked :
      Mem → os.World → Db → Bytes → Bytes → ℕ → Option UserAccount → Run Reply
  unfolding add_account
  create_checked mem w db username passwd permission (some user) =
      ok (RetCode.op_user_exists, db, w)
  create_checked mem w db username passwd permission none =
      if mem 0
      then add_account (later 3 mem) w db username permission
          (hash_byte_array sha (later 1 mem) (some passwd) (length passwd))
      else ok (RetCode.op_failure, db, w)

  unfoldable pub db_create_user : Mem → os.World → Db → Option Bytes → Option Bytes → ℕ → Run Reply
  unfolding create_checked breaks_cred_rule
  db_create_user mem w db none passwd permission = ok (RetCode.op_failure, db, w)
  db_create_user mem w db (some username) none permission = ok (RetCode.op_failure, db, w)
  db_create_user mem w db (some username) (some passwd) permission =
      if breaks_cred_rule username passwd
      then ok (RetCode.op_cred_rule_error, db, w)
      else create_checked mem w db username passwd permission (users.get db.users_htable username)

  -- The hash of the password against the stored one, with two allocations.
  check_password : Mem → UserAccount → Bytes → Run (RetCode × Option UserAccount)
  check_password mem user passwd = elim (hash_byte_array sha mem (some passwd) (length passwd)) [
    | none ↦ ok (RetCode.op_failure, some user)
    | some h ↦ hash_hash_t_match (some user.hash) (some h) >>= λ auth.
        ok (if auth then (RetCode.op_success, some user) else (RetCode.op_user_auth, none))
  ]

  -- The code, and the account that `*pp_user` points to.
  unfoldable pub db_authenticate_user :
      Mem → Db → Option Bytes → Option Bytes → Run (RetCode × Option UserAccount)
  unfolding check_password
  db_authenticate_user mem db none passwd = ok (RetCode.op_failure, none)
  db_authenticate_user mem db (some username) none = ok (RetCode.op_user_auth, none)
  db_authenticate_user mem db (some username) (some passwd) =
      elim (users.get db.users_htable username) [
        | none ↦ ok (RetCode.op_user_auth, none)
        | some user ↦ check_password mem user passwd
      ]

  -- `db_shutdown`: the file is written once more, and the database is gone.
  unfoldable pub db_shutdown : Mem → os.World → Option Db → Run os.World
  unfolding update_db
  db_shutdown mem w none = ok w
  db_shutdown mem w (some db) = update_db mem w db
