-- ===== src/Ctrl/Action/Escalation.antt =====
-- The switch of ctrl_parse_action of src/server/server_ctrl.c, and the permissions of the accounts.
use bsle.Prelude.{
  ◌≢◌, bind_ok, ℕ, ◌≤◌, ◌<◌, ◌≡◌, inl, inr, refl, ap, Bool, true, false, Bool-cases, ==_iff, some,
  Bytes, Run, ok, fault, stuck, ◌>>=◌, Mem, ltb, ◌==◌, if◌then◌else◌, arith,
}
use bsle.Server.{
  RetCode, UserAccount, usr_act_create_user, usr_act_delete_user, perm_admin, perm_read_write,
  act_user_operation, act_delete_remote_file, act_make_remote_directory, act_put_remote_file,
  act_list_remote_directory, act_get_remote_file, act_local_operation,
}
use bsle.Db.{Base, Db}
use bsle.Db.Change.{
  Change, unchanged, old, new, Change-Found, db_create_user-Change, db_remove_user-Change,
}
use bsle.Wire.{
  StdPayload, UserPayload, Payload, no_payload, std_payload, user_payload, WirePayload, ActResp,
  set_resp,
}
use bsle.Ctrl.Action.{
  Done, as_std, as_user, refuse, user_action, user_operation, write_operation, read_operation,
  perform,
}

module _ (base : Base) where
  open base use {os, users}

  abbrev Changes : ℕ → Db base → Db base → Type 0
  Changes limit db db' = Change base limit db.users_htable db'.users_htable

  same-Changes : (limit : ℕ) (db : Db base) {db' : Db base} → db' ≡ db → Changes limit db db'
  same-Changes limit db e = unchanged (ap (λ (d : Db base). d.users_htable) e)

  -- What is left of a result after the response is made from its code.
  abbrev reply : RetCode × Db base × os.World → Run (Done base)
  reply r = ok (set_resp r.0, r.1, r.2)

  reply-Changes :
      (m : Run (RetCode × Db base × os.World)) (limit : ℕ) (db : Db base) {resp : ActResp}
      {db' : Db base} {w' : os.World}
      → ((code : RetCode) (db1 : Db base) (w1 : os.World)
          → m ≡ ok (code, db1, w1)
          → Changes limit db db1)
      → m >>= reply ≡ ok (resp, db', w')
      → Changes limit db db'
  reply-Changes (ok (code, db1, w1)) limit db {resp} {db'} kept e =
      let same : db1 ≡ db' = ground arith in rw (← same) (kept code db1 w1 refl)
  reply-Changes fault limit db kept e = cc
  reply-Changes stuck limit db kept e = cc

  write-same :
      (w : os.World) (db : Db base) (user : UserAccount) (payload : Payload)
      (act : StdPayload → Run (RetCode × os.World)) {resp : ActResp} {db' : Db base} {w' : os.World}
      → write_operation base w db user payload act ≡ ok (resp, db', w')
      → db' ≡ db
  unfolding write_operation
  write-same w db user payload act e = elim (Bool-cases (ltb user.permission perm_read_write)) [
    | inl low ↦ let e' = rw low at e in ground arith
    | inr high ↦
        let (std, given, e1) =
          bind_ok (as_std base payload) (λ std. act std >>= λ r. ok (set_resp r.0, db, r.1))
            (rw high at e) in
        let (r, acted, e2) = bind_ok (act std) (λ r. ok (set_resp r.0, db, r.1)) e1 in ground arith
  ]

  read-same :
      (db : Db base) (payload : Payload) (act : StdPayload → Run (ActResp × os.World))
      {resp : ActResp} {db' : Db base} {w' : os.World}
      → read_operation base db payload act ≡ ok (resp, db', w')
      → db' ≡ db
  unfolding read_operation
  read-same db payload act e =
      let (std, given, e1) =
        bind_ok (as_std base payload) (λ std. act std >>= λ r. ok (r.0, db, r.1)) e in
      let (r, acted, e2) = bind_ok (act std) (λ r. ok (r.0, db, r.1)) e1 in ground arith

  action-Changes :
      (mem : Mem) (w : os.World) (db : Db base) (ld : UserPayload) (limit : ℕ) {code : RetCode}
      {db' : Db base} {w' : os.World}
      → (ld.user_flag ≡ usr_act_create_user → ld.user_perm ≤ limit)
      → (ld.user_flag ≡ usr_act_delete_user → limit ≡ perm_admin)
      → user_action base mem w db ld ≡ ok (code, db', w')
      → Changes limit db db'
  unfolding user_action
  action-Changes mem w db ld limit {code} {db'} low admin e =
      elim (Bool-cases (ld.user_flag == usr_act_create_user)) [
        | inl c ↦
            db_create_user-Change base mem w db ld.username ld.passwd ld.user_perm limit
              (low ((==_iff ld.user_flag usr_act_create_user).0 c)) (rw c at e)
        | inr n ↦ elim (Bool-cases (ld.user_flag == usr_act_delete_user)) [
          | inl d ↦
              db_remove_user-Change base mem w db ld.username limit
                (admin ((==_iff ld.user_flag usr_act_delete_user).0 d)) (rw d at (rw n at e))
          | inr m ↦
              let e' = rw m at (rw n at e) in
              let same : db' ≡ db = ground arith in same-Changes limit db same
        ]
      ]

  -- The tests of `user_operation`, each with its outcome.
  choice-Changes :
      (mem : Mem) (w : os.World) (db : Db base) (user : UserAccount) (ld : UserPayload)
      (create above delete admin : Bool) {resp : ActResp} {db' : Db base} {w' : os.World}
      → (ld.user_flag == usr_act_create_user) ≡ create
      → ltb user.permission ld.user_perm ≡ above
      → (user.permission == perm_admin) ≡ admin
      → (if create
          then (if above
              then refuse base w db RetCode.op_permission_error
              else user_action base mem w db ld >>= reply)
          else if delete
          then (if admin
              then user_action base mem w db ld >>= reply
              else refuse base w db RetCode.op_permission_error)
          else refuse base w db RetCode.op_failure)
        ≡ ok (resp, db', w')
      → Changes user.permission db db'
  unfolding refuse
  choice-Changes mem w db user ld true true delete admin {resp} {db'} c l a e =
      let same : db' ≡ db = ground arith in same-Changes user.permission db same
  choice-Changes mem w db user ld true false delete admin c l a e =
      let low : ld.user_perm ≤ user.permission = ground arith in
      let made = (==_iff ld.user_flag usr_act_create_user).0 c in
      let other : ld.user_flag ≢ usr_act_delete_user = λ s. omega (arith, made, s) in
      reply-Changes (user_action base mem w db ld) user.permission db
        (λ code db1 w1 h.
          action-Changes mem w db ld user.permission (λ _. low) (λ s. absurd (other s)) h)
        e
  choice-Changes mem w db user ld false above true true c l a e =
      reply-Changes (user_action base mem w db ld) user.permission db
        (λ code db1 w1 h.
          action-Changes mem w db ld user.permission (λ s. ground arith)
            (λ s. (==_iff user.permission perm_admin).0 a) h)
        e
  choice-Changes mem w db user ld false above true false {resp} {db'} c l a e =
      let same : db' ≡ db = ground arith in same-Changes user.permission db same
  choice-Changes mem w db user ld false above false admin {resp} {db'} c l a e =
      let same : db' ≡ db = ground arith in same-Changes user.permission db same

  operation-Changes :
      (mem : Mem) (w : os.World) (db : Db base) (user : UserAccount) (ld : UserPayload)
      {resp : ActResp} {db' : Db base} {w' : os.World}
      → user_operation base mem w db user ld ≡ ok (resp, db', w')
      → Changes user.permission db db'
  unfolding user_operation refuse
  operation-Changes mem w db user ld e =
      choice-Changes mem w db user ld (ld.user_flag == usr_act_create_user)
        (ltb user.permission ld.user_perm) (ld.user_flag == usr_act_delete_user)
        (user.permission == perm_admin) refl refl refl e

  user-Changes :
      (mem : Mem) (w : os.World) (db : Db base) (user : UserAccount) (payload : Payload)
      {resp : ActResp} {db' : Db base} {w' : os.World}
      → as_user base payload >>= (λ ld. user_operation base mem w db user ld) ≡ ok (resp, db', w')
      → Changes user.permission db db'
  user-Changes mem w db user (user_payload ld) e = operation-Changes mem w db user ld e
  user-Changes mem w db user (std_payload ld) e = cc
  user-Changes mem w db user no_payload e = cc

  cases-Changes :
      (limit : ℕ) (db : Db base) (test : Bool) (m k : Run (Done base)) {resp : ActResp}
      {db' : Db base} {w' : os.World}
      → (m ≡ ok (resp, db', w') → Changes limit db db')
      → (k ≡ ok (resp, db', w') → Changes limit db db')
      → (if test then m else k) ≡ ok (resp, db', w')
      → Changes limit db db'
  cases-Changes limit db true m k hm hk e = hm e
  cases-Changes limit db false m k hm hk e = hk e

  -- What an action does to the table of users: nothing, or one user is made with no more permission
  -- than the one who acts has, or one is removed.
  pub perform-Change :
      (mem : Mem) (w : os.World) (db : Db base) (user : UserAccount) (req : WirePayload)
      {resp : ActResp} {db' : Db base} {w' : os.World}
      → perform base mem w db user req ≡ ok (resp, db', w')
      → Change base user.permission db.users_htable db'.users_htable
  unfolding perform refuse
  perform-Change mem w db user req {resp} {db'} {w'} e = kept
    where
      p : Payload
      p = req.payload

      test : ℕ → Bool
      test code = req.opt_code == code

      refused_same :
          (code : RetCode)
          → refuse base w db code ≡ ok (resp, db', w')
          → Changes user.permission db db'
      refused_same code h =
          let same : db' ≡ db = ground arith in same-Changes user.permission db same

      writes :
          (act : StdPayload → Run (RetCode × os.World))
          → write_operation base w db user p act ≡ ok (resp, db', w')
          → Changes user.permission db db'
      writes act h = same-Changes user.permission db (write-same w db user p act h)

      reads :
          (act : StdPayload → Run (ActResp × os.World))
          → read_operation base db p act ≡ ok (resp, db', w')
          → Changes user.permission db db'
      reads act h = same-Changes user.permission db (read-same db p act h)

      kept : Changes user.permission db db'
      kept =
          cases-Changes user.permission db (test act_local_operation) _ _
            (refused_same RetCode.op_success)
            (cases-Changes user.permission db (test act_user_operation) _ _
              (user-Changes mem w db user p)
              (cases-Changes user.permission db (test act_delete_remote_file) _ _ (writes _) (
                cases-Changes user.permission db (test act_make_remote_directory) _ _ (writes _) (
                  cases-Changes user.permission db (test act_put_remote_file) _ _ (writes _) (
                    cases-Changes user.permission db (test act_list_remote_directory) _ _ (reads _)
                      (cases-Changes user.permission db (test act_get_remote_file) _ _ (reads _)
                        (refused_same RetCode.op_failure)))))))
            e

  -- Nobody gains a permission by an action: an account with more permission than the user who acts,
  -- found after the action, was there before, with the same hash and permission.
  pub perform_no_escalation :
      (mem : Mem) (w : os.World) (db : Db base) (user : UserAccount) (req : WirePayload)
      (name : Bytes) (a : UserAccount) {resp : ActResp} {db' : Db base} {w' : os.World}
      → perform base mem w db user req ≡ ok (resp, db', w')
      → users.get db'.users_htable name ≡ some a
      → user.permission < a.permission
      → users.get db.users_htable name ≡ some a
  perform_no_escalation mem w db user req name a {resp} {db'} e found more =
      elim (Change-Found base user.permission db.users_htable db'.users_htable name a
        (perform-Change mem w db user req e) found) [
          | old was ↦ was
          | new passwd permission rule low made ↦
              let level : permission ≡ a.permission = ap (λ (u : UserAccount). u.permission) made in
              absurd (omega arith)
        ]
