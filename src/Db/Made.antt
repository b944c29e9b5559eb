-- ===== src/Db/Made.antt =====
-- db_create_user of src/server/server_db.c where nothing is in its way.
use bsle.Prelude.{ℕ, ◌≡◌, refl, false, none, some, Bytes, length, ok, plenty}
use bsle.Server.{RetCode}
use bsle.Crypto.Compare.{hash_byte_array-digest}
use bsle.Db.{
  Base, Db, accounts_of, breaks_cred_rule, add_account, update_db, create_checked, db_create_user,
}
use bsle.Db.Files.{db_update_db}
use bsle.Db.Users.{account}

module _ (base : Base) where
  open base use {os, sha, users}

  -- The table with the new account.
  abbrev pub with_user : users.T → Bytes → Bytes → ℕ → users.T
  with_user t username passwd permission =
      users.set t username (account base username passwd permission)

  -- The user is created if name and password keep the rule, the name is free, memory does not run out,
  -- and `db_update_db` returns on the new table.
  pub db_create_user_made :
      (w w' : os.World) (db : Db base) (username passwd : Bytes) (permission : ℕ)
      → breaks_cred_rule base username passwd ≡ false
      → users.get db.users_htable username ≡ none
      → db_update_db os sha plenty w db.home_dir db.debug
          (accounts_of base (with_user db.users_htable username passwd permission))
        ≡ ok w'
      → db_create_user base plenty w db (some username) (some passwd) permission
        ≡ ok (
          RetCode.op_success,
          record db { users_htable = with_user db.users_htable username passwd permission },
          w',
        )
  unfolding db_create_user create_checked add_account update_db
  db_create_user_made w w' db username passwd permission rule absent written = rw rule (
      rw (absent, create_checked)
        (rw (hash_byte_array-digest sha plenty passwd (length passwd) refl refl, add_account)
          (rw written refl)))
