-- ===== src/Ctrl/Action/Handler.antt =====
-- ctrl_parse_action of src/server/server_ctrl.c as a whole, and the permissions of the accounts.
use bsle.Prelude.{
  bind_ok, ℕ, ◌≤◌, ◌≡◌, ◌⊎◌, inl, inr, refl, sym, ap, ◌∙◌, Bool-cases, Option, none, some, Bytes,
  ok, ◌>>=◌, Mem, later, arith,
}
use bsle.Server.{RetCode, UserAccount}
use bsle.Db.{Base, Db, db_authenticate_user}
use bsle.Db.Change.{Change, old, new, Change-Found}
use bsle.Wire.{WirePayload, ActResp}
use bsle.Ctrl.Action.{
  Done, Env, perform, session_step, after_session, after_auth, ctrl_parse_action,
}
use bsle.Ctrl.Action.Escalation.{perform-Change}

module _ (base : Base) where
  open base use {os, sessions, users}

  -- What became of the table of users: it is as before, or it changed on behalf of the user that the
  -- name and the password of the request are those of.
  pub data ChangeBy (mem : Mem) (db : Db base) (req : WirePayload) (t' : users.T) : Type 0 where
    idle : t' ≡ db.users_htable → ChangeBy mem db req t'
    acted :
        (user : UserAccount)
        → db_authenticate_user base (later 1 mem) db req.username req.passwd
          ≡ ok (RetCode.op_success, some user)
        → Change base user.permission db.users_htable t'
        → ChangeBy mem db req t'

  module _ (w : os.World) (db : Db base) (req : WirePayload) (resp : ActResp) (db' : Db base)
      (w' : os.World) (sid : ℕ) where
    performed :
        (mem : Mem) (user : UserAccount) (t : sessions.T) (s : ℕ)
        → ◌>>=◌ {B = Done base × ℕ}
            (perform base mem w (record db { sesh_htable = t }) user req)
            (λ done. ok (done, s))
          ≡ ok ((resp, db', w'), sid)
        → Change base user.permission db.users_htable db'.users_htable
    performed mem user t s e =
        let (done, ran, given) =
          bind_ok {B = Done base × ℕ} (perform base mem w (record db { sesh_htable = t }) user req)
            (λ done. ok (done, s)) e in
        let same : done ≡ (resp, db', w') = ground arith in
        perform-Change base mem w (record db { sesh_htable = t }) user req
          (ran ∙ ap (λ (d : Done base). ok d) same)

    settled :
        (mem : Mem) (user : UserAccount) (r : RetCode × sessions.T × ℕ)
        → after_session base mem w db user req r ≡ ok ((resp, db', w'), sid)
        → (db'.users_htable ≡ db.users_htable)
          ⊎ Change base user.permission db.users_htable db'.users_htable
    unfolding after_session
    settled mem user (RetCode.op_success, t, s) e = inr (performed mem user t s e)
    settled mem user (_, t, s) e = inl (ground arith)

    authenticated :
        (mem : Mem) (env : Env base) (p : RetCode × Option UserAccount)
        → after_auth base mem env w db req p ≡ ok ((resp, db', w'), sid)
        → (db'.users_htable ≡ db.users_htable)
          ⊎ ((user : UserAccount) × (p ≡ (RetCode.op_success, some user))
              × Change base user.permission db.users_htable db'.users_htable)
    unfolding after_auth
    authenticated mem env (RetCode.op_success, some user) e =
        let (r, begun, e1) =
          bind_ok (session_step base mem env db.sesh_htable req.session_id)
            (after_session base (later 2 mem) w db user req) e in
        elim (settled (later 2 mem) user r e1) [
          | inl same ↦ inl same
          | inr change ↦ inr (user, refl, change)
        ]
    authenticated mem env (RetCode.op_success, none) e = cc
    authenticated mem env (_, user) e = inl (ground arith)

    -- What a request can do to the table of users.
    pub ctrl_parse_action-ChangeBy :
        (mem : Mem) (env : Env base)
        → ctrl_parse_action base mem env w db req ≡ ok (some ((resp, db', w'), sid))
        → ChangeBy mem db req db'.users_htable
    unfolding ctrl_parse_action
    ctrl_parse_action-ChangeBy mem env e = elim (Bool-cases (mem 0)) [
      | inr m ↦ cc (rw m at e)
      | inl m ↦
          let auth = db_authenticate_user base (later 1 mem) db req.username req.passwd in
          let (r, ran, e1) =
            bind_ok {B = Option (Done base × ℕ)}
              (auth >>= after_auth base (later 3 mem) env w db req) (λ r. ok (some r))
              (rw m at e) in
          let (p, known, e2) = bind_ok auth (after_auth base (later 3 mem) env w db req) ran in
          let same : r ≡ ((resp, db', w'), sid) = ground arith in
          elim (authenticated (later 3 mem) env p (e2 ∙ ap (λ (d : Done base × ℕ). ok d) same)) [
            | inl unmoved ↦ idle unmoved
            | inr (user, is, change) ↦
                acted user (known ∙ ap (λ (q : RetCode × Option UserAccount). ok q) is) change
          ]
    ]

    -- Whatever a request brings, with whatever arguments and failures: an account that is found after
    -- `ctrl_parse_action` has answered was there before, or the request was authenticated as a user who has
    -- at least its permission.
    pub ctrl_parse_action_no_escalation :
        (name : Bytes) (a : UserAccount)
        → users.get db'.users_htable name ≡ some a
        → (mem : Mem) (env : Env base)
        → ctrl_parse_action base mem env w db req ≡ ok (some ((resp, db', w'), sid))
        → (users.get db.users_htable name ≡ some a)
          ⊎ ((user : UserAccount) × (db_authenticate_user base
                  (later 1 mem)
                  db
                  req.username
                  req.passwd
                ≡ ok (RetCode.op_success, some user))
              × (a.permission ≤ user.permission))
    ctrl_parse_action_no_escalation name a found mem env e =
        elim (ctrl_parse_action-ChangeBy mem env e) [
          | idle same ↦ inl (ap (λ (t : users.T). users.get t name) (sym same) ∙ found)
          | acted user known change ↦
              elim (Change-Found base user.permission db.users_htable db'.users_htable name a change
                found) [
                  | old was ↦ inl was
                  | new passwd permission rule low made ↦
                      let level : permission ≡ a.permission =
                        ap (λ (u : UserAccount). u.permission) made in
                      inr (user, known, omega arith)
                ]
        ]
