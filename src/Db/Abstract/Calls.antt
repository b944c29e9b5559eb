-- ===== src/Db/Abstract/Calls.antt =====
-- db_create_user, db_remove_user and db_authenticate_user of src/server/server_db.c, each against
-- the map of names to accounts.
use bsle.Prelude.{
  ℕ, ◌≡◌, ◌⊎◌, ◌∙◌, inl, inr, refl, sym, Bool, true, false, Bool-cases, Option, none, some,
  some_injective, Bytes, ok, Mem, later, eq_bytes, eq_bytes→eq, if◌then◌else◌, arith, length,
}
use bsle.Server.{RetCode, Hash, UserAccount}
use bsle.Crypto.{hash_byte_array}
use bsle.Crypto.Compare.{IsSized}
use bsle.Db.{Base, Db, create_checked, add_account, update_db}
use bsle.Db.Users.{kept_code}
use bsle.Db.Abstract.{UserMap, put, without, Call, Answer, spec_call, Stands}

module _ (base : Base) where
  open base use {os, sha, users}

  -- The map answers as the code did, and the table stands for the map that is left.
  pub record Refined (c : Call) (u : UserMap) (answer : Answer) (t' : users.T) : Type 0 where
    pub enough : Bool
    pub u' : UserMap
    pub answers : spec_call base enough c u ≡ (answer, u')
    pub stands : Stands base t' u'

  pub put-Stands :
      (t : users.T) (u : UserMap) (name : Bytes) (a : UserAccount)
      → Stands base t u
      → IsSized a.hash
      → Stands base (users.set t name a) (put name a u)
  put-Stands t u name a s sized = record {
    looks = λ k. users.get-set t name k a ∙ same k (eq_bytes name k);
    full = λ k b found. elim (Bool-cases (eq_bytes name k)) [
      | inl e ↦ rw (← some_injective (rw e at found)) sized
      | inr e ↦ s.full k b (rw e at found)
    ];
  }
    where
      same :
          (k : Bytes) (b : Bool)
          → (if b then some a else users.get t k) ≡ (if b then some a else u k)
      same k true = refl
      same k false = s.looks k

  pub without-Stands :
      (t : users.T) (u : UserMap) (name : Bytes)
      → Stands base t u
      → Stands base (users.del t name).1 (without name u)
  without-Stands t u name s = record {
    looks = λ k. users.get-del t name k ∙ same k (eq_bytes name k);
    full = λ k b found. elim (Bool-cases (eq_bytes name k)) [
      | inl e ↦ cc (rw e at found)
      | inr e ↦ s.full k b (rw e at found)
    ];
  }
    where
      same :
          (k : Bytes) (b : Bool) → (if b then none else users.get t k) ≡ (if b then none else u k)
      same k true = refl
      same k false = s.looks k

  -- Deleting a name that the map does not have.
  pub missing-Stands :
      (t : users.T) (u : UserMap) (name : Bytes)
      → u name ≡ none
      → Stands base t u
      → Stands base (users.del t name).1 u
  missing-Stands t u name absent s = record {
    looks = λ k. users.get-del t name k ∙ same k;
    full = s.full;
  }
    where
      same : (k : Bytes) → (if eq_bytes name k then none else users.get t k) ≡ u k
      same k = elim (Bool-cases (eq_bytes name k)) [
        | inl e ↦ rw e (rw (← eq_bytes→eq name k e) (sym absent))
        | inr e ↦ rw e (s.looks k)
      ]

  add_account_code :
      (mem : Mem) (w : os.World) (db : Db base) (name : Bytes) (permission : ℕ) (h : Option Hash)
      {code : RetCode} {db' : Db base} {w' : os.World}
      → add_account base mem w db name permission h ≡ ok (code, db', w')
      → (code ≡ RetCode.op_success) ⊎ (code ≡ RetCode.op_failure)
  unfolding add_account
  add_account_code mem w db name permission none e = inr (ground (arith, e))
  add_account_code mem w db name permission (some hash) {db' = db'} e = elim (Bool-cases (mem 0)) [
    | inr m ↦ inr (ground (arith, rw m at e))
    | inl m ↦
        let acct : UserAccount = record { username = name; permission = permission; hash = hash } in
        let stored = record db { users_htable = users.set db.users_htable name acct } in
        inl (kept_code base (update_db base (later 1 mem) w stored) stored db' (rw m at e))
  ]

  -- With the rule kept and the name free.
  pub create_code :
      (mem : Mem) (w : os.World) (db : Db base) (name passwd : Bytes) (permission : ℕ)
      {code : RetCode} {db' : Db base} {w' : os.World}
      → create_checked base mem w db name passwd permission none ≡ ok (code, db', w')
      → (code ≡ RetCode.op_success) ⊎ (code ≡ RetCode.op_failure)
  unfolding create_checked
  create_code mem w db name passwd permission e = elim (Bool-cases (mem 0)) [
    | inr m ↦ inr (ground (arith, rw m at e))
    | inl m ↦
        add_account_code (later 3 mem) w db name permission
          (hash_byte_array sha (later 1 mem) (some passwd) (length passwd)) (rw m at e)
  ]
