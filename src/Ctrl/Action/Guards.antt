-- ===== src/Ctrl/Action/Guards.antt =====
-- The tests of ctrl_parse_action of src/server/server_ctrl.c: authentication, session, permissions.
use bsle.Prelude.{
  ==_ne, ℕ, ◌<◌, ◌≡◌, ◌≢◌, refl, true, Option, some, ◌⊎◌, inl, inr, ok, Mem, later, lt→ltb,
}
use bsle.Server.{
  RetCode, UserAccount, act_user_operation, act_delete_remote_file, act_make_remote_directory,
  act_put_remote_file, usr_act_create_user, usr_act_delete_user, perm_read_write, perm_admin,
}
use bsle.Wire.{user_payload, UserPayload, WirePayload, set_resp}
use bsle.Db.{Base, Db, db_authenticate_user}
use bsle.Ctrl.Action.{
  Env, perform, user_operation, write_operation, after_auth, after_session, session_step,
  ctrl_parse_action,
}

module _ (base : Base) where
  open base use {os, sessions, users}

  after_auth_refused :
      (mem : Mem) (env : Env base) (w : os.World) (db : Db base) (req : WirePayload)
      (code : RetCode) (user : Option UserAccount)
      → code ≢ RetCode.op_success
      → after_auth base mem env w db req (code, user) ≡ ok ((set_resp code, db, w), req.session_id)
  unfolding after_auth
  after_auth_refused mem env w db req RetCode.op_success user ne = absurd (ne refl)
  after_auth_refused mem env w db req _ user ne = refl

  -- A request that is not authenticated changes nothing: if there is room for the response, it is
  -- answered with the code of the authentication, and sessions, users and files are as before.
  pub ctrl_parse_action_unauthenticated :
      (mem : Mem) (env : Env base) (w : os.World) (db : Db base) (req : WirePayload)
      (code : RetCode) (user : Option UserAccount)
      → mem 0 ≡ true
      → db_authenticate_user base (later 1 mem) db req.username req.passwd ≡ ok (code, user)
      → code ≢ RetCode.op_success
      → ctrl_parse_action base mem env w db req ≡ ok (some ((set_resp code, db, w), req.session_id))
  unfolding ctrl_parse_action
  ctrl_parse_action_unauthenticated mem env w db req code user m auth ne =
      rw m (rw auth (rw (after_auth_refused (later 3 mem) env w db req code user ne)))

  after_session_refused :
      (mem : Mem) (w : os.World) (db : Db base) (user : UserAccount) (req : WirePayload)
      (code : RetCode) (t : sessions.T) (session_id : ℕ)
      → code ≢ RetCode.op_success
      → after_session base mem w db user req (code, t, session_id)
        ≡ ok ((set_resp code, record db { sesh_htable = t }, w), session_id)
  unfolding after_session
  after_session_refused mem w db user req RetCode.op_success t session_id ne = absurd (ne refl)
  after_session_refused mem w db user req _ t session_id ne = refl

  -- An authenticated request whose session is not accepted performs no action: if there is room
  -- for the response, it is answered with the code of the session, and only the table of sessions
  -- may have changed.
  pub ctrl_parse_action_no_session :
      (mem : Mem) (env : Env base) (w : os.World) (db : Db base) (req : WirePayload)
      (user : UserAccount) (code : RetCode) (t : sessions.T) (session_id : ℕ)
      → mem 0 ≡ true
      → db_authenticate_user base (later 1 mem) db req.username req.passwd
        ≡ ok (RetCode.op_success, some user)
      → session_step base (later 3 mem) env db.sesh_htable req.session_id ≡ ok (code, t, session_id)
      → code ≢ RetCode.op_success
      → ctrl_parse_action base mem env w db req
        ≡ ok (some ((set_resp code, record db { sesh_htable = t }, w), session_id))
  unfolding ctrl_parse_action after_auth
  ctrl_parse_action_no_session mem env w db req user code t session_id m auth sesh ne = rw m (
      rw auth (
        rw sesh
          (rw (after_session_refused (later 2 (later 3 mem)) w db user req code t session_id ne))))

  -- Without the permission READ_WRITE a user deletes, makes and puts nothing.
  pub perform_read_only :
      (mem : Mem) (w : os.World) (db : Db base) (user : UserAccount) (req : WirePayload)
      → user.permission < perm_read_write
      → (req.opt_code ≡ act_delete_remote_file)
        ⊎ ((req.opt_code ≡ act_make_remote_directory) ⊎ (req.opt_code ≡ act_put_remote_file))
      → perform base mem w db user req ≡ ok (set_resp RetCode.op_permission_error, db, w)
  unfolding perform write_operation
  perform_read_only mem w db user req low (inl e) = rw e (rw (lt→ltb _ _ low))
  perform_read_only mem w db user req low (inr (inl e)) = rw e (rw (lt→ltb _ _ low))
  perform_read_only mem w db user req low (inr (inr e)) = rw e (rw (lt→ltb _ _ low))

  -- Nobody makes a user with more permission than their own, and nobody but an administrator removes
  -- a user: both are refused, and nothing changes.
  pub perform_user_guards :
      (mem : Mem) (w : os.World) (db : Db base) (user : UserAccount) (req : WirePayload)
      (ld : UserPayload)
      → req.opt_code ≡ act_user_operation
      → req.payload ≡ user_payload ld
      → ((ld.user_flag ≡ usr_act_create_user) × (user.permission < ld.user_perm))
        ⊎ ((ld.user_flag ≡ usr_act_delete_user) × (user.permission ≢ perm_admin))
      → perform base mem w db user req ≡ ok (set_resp RetCode.op_permission_error, db, w)
  unfolding perform user_operation
  perform_user_guards mem w db user req ld op pl (inl (flag, more)) =
      rw op (rw pl (rw flag (rw (lt→ltb _ _ more))))
  perform_user_guards mem w db user req ld op pl (inr (flag, other)) =
      rw op (rw pl (rw flag (rw (==_ne user.permission perm_admin other))))
