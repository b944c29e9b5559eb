-- ===== src/Ctrl/Action.antt =====
-- src/server/server_ctrl.c, `ctrl_parse_action`: the switch over the operations and its permissions,
-- and the whole handler.
pub mod Guards
pub mod Escalation
pub mod Handler
use bsle.Prelude.{
  ℕ, ◌+◌, Bool, true, false, not, Option, none, some, Bytes, Run, ok, fault, ◌>>=◌, Mem, later, ltb,
  ◌==◌, if◌then◌else◌,
}
use bsle.Server.{
  RetCode, UserAccount, act_user_operation, act_delete_remote_file, act_list_remote_directory,
  act_get_remote_file, act_make_remote_directory, act_put_remote_file, act_local_operation,
  usr_act_create_user, usr_act_delete_user, perm_read_write, perm_admin,
}
use bsle.Wire.{
  StdPayload, UserPayload, Payload, no_payload, std_payload, user_payload, WirePayload, ActResp,
  set_resp,
}
use bsle.Db.{Base, Db, db_create_user, db_remove_user, db_authenticate_user}
use bsle.Ctrl.{
  generate_session_id, check_session, do_del_file, do_make_dir, do_put_file, do_get_file,
  do_list_dir,
}

module _ (base : Base) where
  open base use {os, sessions}

  -- The response, the database and the file system as an action leaves them.
  abbrev pub Done : Type 0
  Done = ActResp × Db base × os.World

  -- The union is read as the member that the operation calls for; `calloc` left it NULL otherwise.
  abbrev as_std : Payload → Run StdPayload
  as_std (std_payload p) = ok p
  as_std (user_payload p) = fault
  as_std no_payload = fault

  abbrev as_user : Payload → Run UserPayload
  as_user (user_payload p) = ok p
  as_user (std_payload p) = fault
  as_user no_payload = fault

  unfoldable pub user_action :
      Mem → os.World → Db base → UserPayload → Run (RetCode × Db base × os.World)
  user_action mem w db ld =
      if ld.user_flag == usr_act_create_user
      then db_create_user base mem w db ld.username ld.passwd ld.user_perm
      else if ld.user_flag == usr_act_delete_user
      then db_remove_user base mem w db ld.username
      else ok (RetCode.op_failure, db, w)

  refuse : os.World → Db base → RetCode → Run Done
  refuse w db code = ok (set_resp code, db, w)

  -- `ACT_USER_OPERATION`: a new user has no more permission than the one who makes it, and only an
  -- administrator removes users.
  unfoldable pub user_operation : Mem → os.World → Db base → UserAccount → UserPayload → Run Done
  unfolding user_action refuse
  user_operation mem w db user ld =
      let act =
        user_action mem w db ld
        >>= (λ (r : RetCode × Db base × os.World). ok (set_resp r.0, r.1, r.2)) in
      if ld.user_flag == usr_act_create_user
      then (if ltb user.permission ld.user_perm
          then refuse w db RetCode.op_permission_error
          else act)
      else if ld.user_flag == usr_act_delete_user
      then (if user.permission == perm_admin then act else refuse w db RetCode.op_permission_error)
      else refuse w db RetCode.op_failure

  -- An operation on files that writes wants READ_WRITE.
  unfoldable pub write_operation :
      os.World
      → Db base
      → UserAccount
      → Payload
      → (StdPayload → Run (RetCode × os.World))
      → Run Done
  unfolding refuse
  write_operation w db user payload act =
      if ltb user.permission perm_read_write
      then refuse w db RetCode.op_permission_error
      else as_std payload >>= λ std. act std >>= λ r. ok (set_resp r.0, db, r.1)

  unfoldable pub read_operation :
      Db base → Payload → (StdPayload → Run (ActResp × os.World)) → Run Done
  read_operation db payload act = as_std payload >>= λ std. act std >>= λ r. ok (r.0, db, r.1)

  -- The switch over `opt_code`.
  unfoldable pub perform : Mem → os.World → Db base → UserAccount → WirePayload → Run Done
  unfolding user_operation write_operation read_operation refuse
  perform mem w db user req =
      if req.opt_code == act_local_operation
      then refuse w db RetCode.op_success
      else if req.opt_code == act_user_operation
      then as_user req.payload >>= (λ ld. user_operation mem w db user ld)
      else if req.opt_code == act_delete_remote_file
      then write_operation w db user req.payload (do_del_file base mem w db)
      else if req.opt_code == act_make_remote_directory
      then write_operation w db user req.payload (do_make_dir base mem w db)
      else if req.opt_code == act_put_remote_file
      then write_operation w db user req.payload (do_put_file base mem w db)
      else if req.opt_code == act_list_remote_directory
      then read_operation db req.payload (do_list_dir base mem w db)
      else if req.opt_code == act_get_remote_file
      then read_operation db req.payload (do_get_file base mem w db)
      else refuse w db RetCode.op_failure

  -- What the environment gives to one request: fuel for the search of a session number, the values of
  -- `rand`, the time, and the timeout of a session.
  pub record Env : Type 0 where
    pub fuel : ℕ
    pub rand : ℕ → ℕ
    pub now : ℕ
    pub timeout : ℕ

  -- A request with session 0 gets a new session; any other must name one that is alive.
  unfoldable pub session_step : Mem → Env → sessions.T → ℕ → Run (RetCode × sessions.T × ℕ)
  session_step mem env t session_id =
      if session_id == 0
      then generate_session_id base env.fuel env.rand mem env.now t session_id
      else check_session base mem env.now env.timeout t session_id
        >>= (λ (r : RetCode × sessions.T). ok (r.0, r.1, session_id))

  -- The session is settled: with any code but OP_SUCCESS the action is not begun.
  after_session :
      Mem
      → os.World
      → Db base
      → UserAccount
      → WirePayload
      → RetCode × sessions.T × ℕ
      → Run (Done × ℕ)
  unfolding perform
  after_session mem w db user req (RetCode.op_success, t, session_id) =
      perform mem w (record db { sesh_htable = t }) user req >>= λ done. ok (done, session_id)
  after_session mem w db user req (code, t, session_id) =
      ok ((set_resp code, record db { sesh_htable = t }, w), session_id)

  -- The user is settled too; a success without an account does not occur.
  after_auth :
      Mem → Env → os.World → Db base → WirePayload → RetCode × Option UserAccount → Run (Done × ℕ)
  unfolding session_step after_session
  after_auth mem env w db req (RetCode.op_success, some user) =
      session_step mem env db.sesh_htable req.session_id
      >>= after_session (later 2 mem) w db user req
  after_auth mem env w db req (RetCode.op_success, none) = fault
  after_auth mem env w db req (code, user) = ok ((set_resp code, db, w), req.session_id)

  -- The allocations are the response, two of the password's hash, two of the session, and those of the
  -- action. `none` is the NULL that is returned if there is no room for the response; the number is
  -- the request's session as the call leaves it.
  unfoldable pub ctrl_parse_action :
      Mem → Env → os.World → Db base → WirePayload → Run (Option (Done × ℕ))
  unfolding after_auth
  ctrl_parse_action mem env w db req =
      if mem 0
      then (db_authenticate_user base (later 1 mem) db req.username req.passwd
          >>= after_auth (later 3 mem) env w db req
          >>= λ r. ok (some r))
      else ok none
