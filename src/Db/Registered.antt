-- ===== src/Db/Registered.antt =====
-- What holds of every account in the user database of src/server/server_db.c.
use bsle.Prelude.{ℕ, ◌≤◌, ◌≡◌, refl, Bytes, length}
use bsle.Server.{UserAccount}
use bsle.Db.{Base}
use bsle.Db.Users.{account}

-- An account under its own name, with at most this permission, and a hash of 32 bytes.
pub record IsRegistered (limit : ℕ) (name : Bytes) (a : UserAccount) : Type 0 where
  pub own : a.username ≡ name
  pub level : a.permission ≤ limit
  pub sized : a.hash.size ≡ 32
  pub full : length a.hash.array ≡ 32

-- So does an account that `db_create_user` makes.
pub account-IsRegistered :
    (base : Base) (limit : ℕ) (name passwd : Bytes) (permission : ℕ)
    → permission ≤ limit
    → IsRegistered limit name (account base name passwd permission)
account-IsRegistered base limit name passwd permission low = record {
  own = refl;
  level = low;
  sized = refl;
  full = base.sha.length-digest passwd;
}
