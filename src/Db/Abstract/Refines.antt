-- ===== src/Db/Abstract/Refines.antt =====
-- The user database of src/server/server_db.c over sequences of calls, against the map of names to
-- accounts.
use bsle.Prelude.{
  map, ℕ, ◌≡◌, ◌≢◌, ◌⊎◌, ◌∙◌, inl, inr, refl, sym, ap, Bool, true, false, Bool-cases, Option,
  Option-cases, none, some, List, [], ◌∷◌, Bytes, Run, ok, ◌>>=◌, bind_ok, Mem, eq_bytes,
  if◌then◌else◌, arith, length,
}
use bsle.Server.{RetCode, Hash, UserAccount}
use bsle.Crypto.{hash_byte_array}
use bsle.Crypto.Compare.{IsSized, hash_byte_array-some, hash_hash_t_match-eq_bytes}
use bsle.Db.{
  Base, Db, breaks_cred_rule, db_create_user, create_checked, db_remove_user, remove_found,
  db_authenticate_user, check_password, update_db,
}
use bsle.Db.Users.{account, kept_code, db_create_user_success}
use bsle.Db.Refused.{db_create_user_failed}
use bsle.Db.Removal.{db_remove_user-table}
use bsle.Db.Abstract.{
  UserMap, put, without, Call, create, remove, login, Answer, run_call, run_calls, spec_call,
  spec_calls, spec_login, Stands,
}
use bsle.Db.Abstract.Calls.{Refined, put-Stands, without-Stands, missing-Stands, create_code}

module _ (base : Base) where
  open base use {os, sha, users}

  no_success : {code : RetCode} → code ≡ RetCode.op_failure → code ≢ RetCode.op_success
  no_success is same = cc

  create-Refined :
      (mem : Mem) (w : os.World) (db : Db base) (u : UserMap) (name passwd : Bytes) (permission : ℕ)
      {code : RetCode} {db' : Db base} {w' : os.World}
      → Stands base db.users_htable u
      → db_create_user base mem w db (some name) (some passwd) permission ≡ ok (code, db', w')
      → Refined base (create mem name passwd permission) u (code, none) db'.users_htable
  unfolding db_create_user spec_call create_checked
  create-Refined mem w db u name passwd permission {code} {db'} {w'} s e =
      elim (Bool-cases (breaks_cred_rule base name passwd)) [
        | inl broken ↦
            let e1 = rw broken at e in
            let is : code ≡ RetCode.op_cred_rule_error = ground (arith, e1) in
            let same : db'.users_htable ≡ db.users_htable = ground (arith, e1) in
            record { enough = true; u' = u; answers = rw broken (rw is refl); stands = rw same s }
        | inr rule ↦ elim (Option-cases (u name)) [
          | inr (a, taken) ↦
              let e1 = rw (s.looks name ∙ taken) at (rw rule at e) in
              let is : code ≡ RetCode.op_user_exists = ground (arith, e1) in
              let same : db'.users_htable ≡ db.users_htable = ground (arith, e1) in
              record {
                enough = true;
                u' = u;
                answers = rw rule (rw (taken, spec_call) (rw is refl));
                stands = rw same s;
              }
          | inl absent ↦
              let e1 = rw (s.looks name ∙ absent) at (rw rule at e) in
              elim (create_code base mem w db name passwd permission e1) [
                | inr is ↦
                    let same =
                      (db_create_user_failed base mem w db (some name) (some passwd) permission
                        (no_success is) e).0 in
                    record {
                      enough = false;
                      u' = u;
                      answers = rw rule (rw (absent, spec_call) (rw is refl));
                      stands = rw same s;
                    }
                | inl is ↦
                    let made =
                      db_create_user_success base mem w db name passwd permission (rw is at e) in
                    let acct = account base name passwd permission in
                    record {
                      enough = true;
                      u' = put name acct u;
                      answers = rw rule (rw (absent, spec_call) (rw is refl));
                      stands = rw made.stored (
                          put-Stands base db.users_htable u name acct s
                            (sym (sha.length-digest passwd)));
                    }
              ]
        ]
      ]

  remove_code :
      (mem : Mem) (w : os.World) (db : Db base) (o : Option UserAccount) (t : users.T)
      {code : RetCode} {db' : Db base} {w' : os.World}
      → remove_found base mem w db o t ≡ ok (code, db', w')
      → ((o ≡ none) × (code ≡ RetCode.op_user_no_exist))
        ⊎ ((a : UserAccount) × (o ≡ some a) × (code ≡ RetCode.op_success))
  unfolding remove_found
  remove_code mem w db none t e = inl (refl, ground (arith, e))
  remove_code mem w db (some a) t {db' = db'} e =
      let left = record db { users_htable = t } in
      inr (a, refl, kept_code base (update_db base mem w left) left db' e)

  remove-Refined :
      (mem : Mem) (w : os.World) (db : Db base) (u : UserMap) (name : Bytes) {code : RetCode}
      {db' : Db base} {w' : os.World}
      → Stands base db.users_htable u
      → db_remove_user base mem w db (some name) ≡ ok (code, db', w')
      → Refined base (remove mem name) u (code, none) db'.users_htable
  unfolding db_remove_user spec_call
  remove-Refined mem w db u name {code} {db'} s e =
      let r = users.del db.users_htable name in
      let table = db_remove_user-table base mem w db name e in
      let look = sym (s.looks name) ∙ sym (users.del-get db.users_htable name) in
      elim (remove_code mem w db r.0 r.1 e) [
        | inl (gone, is) ↦ record {
          enough = true;
          u' = u;
          answers = rw (look ∙ gone, spec_call) (rw is refl);
          stands = rw table (missing-Stands base db.users_htable u name (look ∙ gone) s);
        }
        | inr (a, there, is) ↦ record {
          enough = true;
          u' = without name u;
          answers = rw (look ∙ there, spec_call) (rw is refl);
          stands = rw table (without-Stands base db.users_htable u name s);
        }
      ]

  -- What the comparison of the digests answers, in the code and on the map.
  matched :
      {u : UserMap} {answer : Answer} (a : UserAccount) (same : Bool)
      → ◌≡◌ {A = Run Answer}
          (ok (if same then (RetCode.op_success, some a) else (RetCode.op_user_auth, none)))
          (ok answer)
      → ◌≡◌ {A = Answer × UserMap}
          (if same then ((RetCode.op_success, some a), u) else ((RetCode.op_user_auth, none), u))
          (answer, u)
  matched a true e = ground (arith, e)
  matched a false e = ground (arith, e)

  login-Refined :
      (mem : Mem) (db : Db base) (u : UserMap) (name passwd : Bytes) {answer : Answer}
      → Stands base db.users_htable u
      → db_authenticate_user base mem db (some name) (some passwd) ≡ ok answer
      → Refined base (login mem name passwd) u answer db.users_htable
  unfolding db_authenticate_user check_password spec_call spec_login
  login-Refined mem db u name passwd s e = elim (Option-cases (u name)) [
    | inl absent ↦
        let e1 = rw (s.looks name ∙ absent, db_authenticate_user) at e in
        record {
          enough = true;
          u' = u;
          answers = rw (absent, spec_call) (ground (arith, e1));
          stands = s;
        }
    | inr (a, there) ↦
        let e1 = rw (s.looks name ∙ there, db_authenticate_user) at e in
        elim (Option-cases (hash_byte_array sha mem (some passwd) (length passwd))) [
          | inl none_left ↦
              let e2 = rw (none_left, check_password) at e1 in
              record {
                enough = false;
                u' = u;
                answers = rw (there, spec_call) (ground (arith, e2));
                stands = s;
              }
          | inr (h, made) ↦
              let e2 = rw (made, check_password) at e1 in
              let e3 = rw (hash_byte_array-some sha mem passwd (length passwd) made) at e2 in
              let sized : IsSized a.hash = s.full name a there in
              let given : Hash = record { size = 32; array = sha.digest passwd } in
              let e4 =
                rw (hash_hash_t_match-eq_bytes a.hash given sized (sym (sha.length-digest passwd)))
                  at e3 in
              record {
                enough = true;
                u' = u;
                answers =
                    rw (there, spec_call, spec_login)
                      (matched a (eq_bytes a.hash.array (sha.digest passwd)) e4);
                stands = s;
              }
        ]
  ]

  run_call-Refined :
      (c : Call) (w : os.World) (db : Db base) (u : UserMap) {answer : Answer} {db' : Db base}
      {w' : os.World}
      → Stands base db.users_htable u
      → run_call base c w db ≡ ok (answer, db', w')
      → Refined base c u answer db'.users_htable
  unfolding run_call
  run_call-Refined (create mem name passwd permission) w db u {answer} {db'} {w'} s e =
      let ((code, db1, w1), ran, given) =
        bind_ok (db_create_user base mem w db (some name) (some passwd) permission)
          (λ r. ok ((r.0, none), r.1, r.2)) e in
      let is : (code, none) ≡ answer = ground (arith, given) in
      let left : db1 ≡ db' = ground (arith, given) in
      rw (← is) (rw (← left) (create-Refined mem w db u name passwd permission {w' = w1} s ran))
  run_call-Refined (remove mem name) w db u {answer} {db'} {w'} s e =
      let ((code, db1, w1), ran, given) =
        bind_ok (db_remove_user base mem w db (some name)) (λ r. ok ((r.0, none), r.1, r.2)) e in
      let is : (code, none) ≡ answer = ground (arith, given) in
      let left : db1 ≡ db' = ground (arith, given) in
      rw (← is) (rw (← left) (remove-Refined mem w db u name {w' = w1} s ran))
  run_call-Refined (login mem name passwd) w db u {answer} {db'} {w'} s e =
      let (r, ran, given) =
        bind_ok (db_authenticate_user base mem db (some name) (some passwd)) (λ r. ok (r, db, w))
          e in
      let is : r ≡ answer = ground (arith, given) in
      let left : db ≡ db' = ground (arith, given) in
      rw (← is) (rw (← left) (login-Refined mem db u name passwd s ran))

  -- The calls are replayed on the map, each with memory enough or not.
  pub record Replayed (calls : List Call) (u : UserMap) (answers : List Answer) (t' : users.T)
      : Type 0 where
    pub replay : List (Bool × Call)
    pub u' : UserMap
    pub all_calls : map (λ c. c.1) replay ≡ calls
    pub agrees : spec_calls base replay u ≡ (answers, u')
    pub stands : Stands base t' u'

  -- One call more, in front.
  both :
      {c : Call} {calls : List Call} {u : UserMap} {answer : Answer} {more answers : List Answer}
      {t t' t'' : users.T}
      → answer ∷ more ≡ answers
      → t' ≡ t''
      → (step : Refined base c u answer t) → Replayed calls step.u' more t'
      → Replayed (c ∷ calls) u answers t''
  unfolding spec_calls
  both {c} is left step tail = record {
    replay = (step.enough, c) ∷ tail.replay;
    u' = tail.u';
    all_calls = ap (λ (l : List Call). c ∷ l) tail.all_calls;
    agrees = rw (step.answers, spec_calls) (rw (tail.agrees) (rw is refl));
    stands = rw (← left) tail.stands;
  }

  -- The user database is a map from names to accounts: for a table that stands for a map, and any
  -- sequence of calls that returns, the same calls on the map, each with memory enough or not, give the
  -- same answers, and the table that is left stands for the map that is left.
  pub run_calls-Replayed :
      (calls : List Call) (w : os.World) (db : Db base) (u : UserMap) {answers : List Answer}
      {db' : Db base} {w' : os.World}
      → Stands base db.users_htable u
      → run_calls base calls w db ≡ ok (answers, db', w')
      → Replayed calls u answers db'.users_htable
  unfolding run_calls spec_calls
  run_calls-Replayed [] w db u {answers} {db'} s e =
      let left : db ≡ db' = ground (arith, e) in
      record {
        replay = [];
        u' = u;
        all_calls = refl;
        agrees = ground (arith, e);
        stands = rw (← left) s;
      }
  run_calls-Replayed (c ∷ calls) w db u {answers} {db'} {w'} s e =
      let ((answer, db1, w1), ran, e1) =
        bind_ok (run_call base c w db)
          (λ r. run_calls base calls r.2 r.1 >>= (λ rest. ok (r.0 ∷ rest.0, rest.1, rest.2))) e in
      let ((more, db2, w2), rest, given) =
        bind_ok (run_calls base calls w1 db1) (λ rest. ok (answer ∷ rest.0, rest.1, rest.2)) e1 in
      let step = run_call-Refined c w db u {w' = w1} s ran in
      let tail = run_calls-Replayed calls w1 db1 step.u' {w' = w2} step.stands rest in
      both (ground (arith, given)) (ground (arith, given)) step tail
