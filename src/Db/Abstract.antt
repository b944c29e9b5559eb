-- ===== src/Db/Abstract.antt =====
-- What the user database of src/server/server_db.c promises: a map from names to accounts, and what
-- db_create_user, db_remove_user and db_authenticate_user do to it.
pub mod Calls
pub mod Refines
use bsle.Prelude.{
  ℕ, ◌≡◌, Bool, Option, none, some, List, [], ◌∷◌, Bytes, Run, ok, ◌>>=◌, Mem, eq_bytes,
  if◌then◌else◌,
}
use bsle.Server.{RetCode, UserAccount}
use bsle.Db.{Base, Db, breaks_cred_rule, db_create_user, db_remove_user, db_authenticate_user}
use bsle.Crypto.Compare.{IsSized}
use bsle.Db.Users.{account}

-- The map.
abbrev pub UserMap : Type 0
UserMap = Bytes → Option UserAccount

abbrev pub put : Bytes → UserAccount → UserMap → UserMap
put name a u k = if eq_bytes name k then some a else u k

abbrev pub without : Bytes → UserMap → UserMap
without name u k = if eq_bytes name k then none else u k

-- A call, with its memory.
pub data Call : Type 0 where
  create : Mem → Bytes → Bytes → ℕ → Call
  remove : Mem → Bytes → Call
  login : Mem → Bytes → Bytes → Call

-- What a caller learns.
abbrev pub Answer : Type 0
Answer = RetCode × Option UserAccount

module _ (base : Base) where
  open base use {os, sha, users}

  -- The calls on the database.
  pub run_call : Call → os.World → Db base → Run (Answer × Db base × os.World)
  run_call (create mem name passwd permission) w db =
      db_create_user base mem w db (some name) (some passwd) permission >>= λ r.
      ok ((r.0, none), r.1, r.2)
  run_call (remove mem name) w db =
      db_remove_user base mem w db (some name) >>= λ r. ok ((r.0, none), r.1, r.2)
  run_call (login mem name passwd) w db =
      db_authenticate_user base mem db (some name) (some passwd) >>= λ r. ok (r, db, w)

  unfoldable pub run_calls : List Call → os.World → Db base → Run (List Answer × Db base × os.World)
  unfolding run_call
  run_calls [] w db = ok ([], db, w)
  run_calls (c ∷ calls) w db = do
    r ← run_call c w db
    rest ← run_calls calls r.2 r.1
    ok (r.0 ∷ rest.0, rest.1, rest.2)

  spec_create : Bool → Bytes → Bytes → ℕ → UserMap → Option UserAccount → Answer × UserMap
  spec_create enough name passwd permission u (some a) = ((RetCode.op_user_exists, none), u)
  spec_create enough name passwd permission u none =
      if enough
      then ((RetCode.op_success, none), put name (account base name passwd permission) u)
      else ((RetCode.op_failure, none), u)

  spec_remove : Bytes → UserMap → Option UserAccount → Answer × UserMap
  spec_remove name u none = ((RetCode.op_user_no_exist, none), u)
  spec_remove name u (some a) = ((RetCode.op_success, none), without name u)

  spec_login : Bool → Bytes → UserMap → Option UserAccount → Answer × UserMap
  spec_login enough passwd u none = ((RetCode.op_user_auth, none), u)
  spec_login enough passwd u (some a) =
      if enough
      then (if eq_bytes a.hash.array (sha.digest passwd)
          then ((RetCode.op_success, some a), u)
          else ((RetCode.op_user_auth, none), u))
      else ((RetCode.op_failure, some a), u)

  -- The calls on the map; the Boolean tells whether there was memory enough.
  pub spec_call : Bool → Call → UserMap → Answer × UserMap
  unfolding spec_create spec_remove spec_login
  spec_call enough (create mem name passwd permission) u =
      if breaks_cred_rule base name passwd
      then ((RetCode.op_cred_rule_error, none), u)
      else spec_create enough name passwd permission u (u name)
  spec_call enough (remove mem name) u = spec_remove name u (u name)
  spec_call enough (login mem name passwd) u = spec_login enough passwd u (u name)

  pub spec_calls : List (Bool × Call) → UserMap → List Answer × UserMap
  unfolding spec_call
  spec_calls [] u = ([], u)
  spec_calls ((enough, c) ∷ calls) u =
      let (answer, u') = spec_call enough c u in
      let (rest, u'') = spec_calls calls u' in (answer ∷ rest, u'')

  -- The table stands for the map, and every hash in it has the size of its array.
  pub record Stands (t : users.T) (u : UserMap) : Type 0 where
    pub looks : (k : Bytes) → users.get t k ≡ u k
    pub full : (k : Bytes) (a : UserAccount) → u k ≡ some a → IsSized a.hash
