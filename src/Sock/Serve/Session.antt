-- ===== src/Sock/Serve/Session.antt =====
-- A user who comes back with a session, from the bytes of the request to those of the response:
-- serve_client of src/server/server_sock.c with ACT_LOCAL_OPERATION.
use bsle.Prelude.{
  ℕ, ◌≤◌, ◌<◌, ◌≡◌, ◌≢◌, refl, ap, ◌∙◌, true, false, Bool, none, some, List, Bytes, length, ok,
  plenty, Bool-cases, inl, inr, arith, eq_bytes, ==_ne, ltb, ◌-◌, ◌^◌,
}
use bsle.Server.{RetCode, UserAccount}
use bsle.Wire.{set_resp}
use bsle.Db.{Base, Db, db_authenticate_user}
use bsle.Crypto.Compare.{IsSized}
use bsle.Db.Users.{db_authenticate_user-digest}
use bsle.Ctrl.{check_session}
use bsle.Ctrl.Sessions.{check_session_timeout}
use bsle.Ctrl.Action.{Env, session_step, perform, ctrl_parse_action}
use bsle.Sock.{Conn}
use bsle.Sock.Stream.{arrive}
use bsle.Sock.Read.Encode.{wire_bytes, IsText}
use bsle.Sock.Read.RoundTrip.{read_client_req-wire_bytes}
use bsle.Sock.Write.{WriteEvent}
use bsle.Sock.Write.Sending.{Progress, sent_bytes}
use bsle.Sock.Write.Answer.{answer_bytes, length-msg_expired, length-msg_success}
use bsle.Sock.Serve.{serve_client}
use bsle.Sock.Serve.Local.{local_request, local_request-IsRequest, serve_client_answered}

module _ (base : Base) where
  open base use {os, sha, users, sessions}

  -- The controller with a session that was checked.
  ctrl_parse_action_in_time :
      (env : Env base) (w : os.World) (db : Db base) (name passwd : Bytes) (user : UserAccount)
      (sesh : ℕ) (t : sessions.T)
      → sesh ≢ 0
      → db_authenticate_user base plenty db (some name) (some passwd)
        ≡ ok (RetCode.op_success, some user)
      → check_session base plenty env.now env.timeout db.sesh_htable sesh
        ≡ ok (RetCode.op_success, t)
      → ctrl_parse_action base plenty env w db (local_request name passwd sesh)
        ≡ ok (some ((set_resp RetCode.op_success, record db { sesh_htable = t }, w), sesh))
  unfolding ctrl_parse_action perform session_step
  ctrl_parse_action_in_time env w db name passwd user sesh t given auth checked =
      rw auth (rw (==_ne sesh 0 given) (rw checked refl))

  ctrl_parse_action_late :
      (env : Env base) (w : os.World) (db : Db base) (name passwd : Bytes) (user : UserAccount)
      (sesh : ℕ) (t : sessions.T)
      → sesh ≢ 0
      → db_authenticate_user base plenty db (some name) (some passwd)
        ≡ ok (RetCode.op_success, some user)
      → check_session base plenty env.now env.timeout db.sesh_htable sesh
        ≡ ok (RetCode.op_session_error, t)
      → ctrl_parse_action base plenty env w db (local_request name passwd sesh)
        ≡ ok (some ((set_resp RetCode.op_session_error, record db { sesh_htable = t }, w), sesh))
  unfolding ctrl_parse_action session_step
  ctrl_parse_action_late env w db name passwd user sesh t given auth checked =
      rw auth (rw (==_ne sesh 0 given) (rw checked refl))

  -- What a request with a session comes to, late or in time.
  abbrev pub CameBack : Bool → ℕ → Db base → ℕ → Bytes → Type 0
  CameBack true now db' sesh sent =
      (sessions.get db'.sesh_htable sesh ≡ none)
      × (sent ≡ answer_bytes sesh RetCode.op_session_error)
  CameBack false now db' sesh sent =
      (sessions.get db'.sesh_htable sesh ≡ some (some now))
      × (sent ≡ answer_bytes sesh RetCode.op_success)

  -- A user who comes back with the right password and a session. The bytes of the request arrive, memory
  -- does not run out, and the calls of `write` take at least a byte each and are at least 57, as many
  -- as the longer answer has bytes: then `serve_client` ends, with the files and the users as they were.
  -- If more than the timeout has gone by since the session's time, the session is gone, and the bytes
  -- that are sent are OP_SESSION_ERROR; otherwise its time is now, and they are OP_SUCCESS.
  pub serve_client_session :
      (env : Env base) (rest : Conn) (evs : List WriteEvent) (w : os.World) (db : Db base)
      (name passwd : Bytes) (user : UserAccount) (sesh start : ℕ)
      → IsText (length name) (some name)
      → IsText (length passwd) (some passwd)
      → users.get db.users_htable name ≡ some user
      → IsSized user.hash
      → eq_bytes user.hash.array (sha.digest passwd) ≡ true
      → sesh ≢ 0
      → sesh < 2 ^ 32
      → sessions.get db.sesh_htable sesh ≡ some (some start)
      → Progress evs
      → 57 ≤ length evs
      → (chunks : List Bytes) × (db' : Db base) × (serve_client base true true plenty plenty plenty
            plenty env
            (arrive (wire_bytes (local_request name passwd sesh)) rest)
            evs
            w
            db
          ≡ ok (chunks, db', w))
        × (db'.users_htable ≡ db.users_htable)
        × CameBack (ltb env.timeout (env.now - start)) env.now db' sesh (sent_bytes chunks)
  serve_client_session env rest evs w db name passwd user sesh start named secret found sized right
        given small stored p n =
      let auth =
        rw right at
          (db_authenticate_user-digest base plenty db name passwd user found sized refl refl) in
      let wire = local_request name passwd sesh in
      let read =
        read_client_req-wire_bytes plenty wire rest (λ i. refl)
          (local_request-IsRequest name passwd sesh small named secret) in
      let (code, t, checked, timed) =
        check_session_timeout base plenty env.now env.timeout db.sesh_htable sesh start stored
          refl in
      let db' = record db { sesh_htable = t } in
      elim (Bool-cases (ltb env.timeout (env.now - start))) [
        | inl late ↦
            let (is, gone) = rw late at timed in
            let acted =
              ctrl_parse_action_late env w db name passwd user sesh t given auth
                (checked ∙ ap (λ (c : RetCode). ok (c, t)) is) in
            let (chunks, served, sent) =
              serve_client_answered base env (arrive (wire_bytes wire) rest) evs w w db db' wire
                RetCode.op_session_error sesh read acted p (omega (arith, length-msg_expired)) in
            (chunks, db', served, refl, rw late (gone, sent))
        | inr in_time ↦
            let (is, renewed) = rw in_time at timed in
            let acted =
              ctrl_parse_action_in_time env w db name passwd user sesh t given auth
                (checked ∙ ap (λ (c : RetCode). ok (c, t)) is) in
            let (chunks, served, sent) =
              serve_client_answered base env (arrive (wire_bytes wire) rest) evs w w db db' wire
                RetCode.op_success sesh read acted p (omega (arith, length-msg_success)) in
            (chunks, db', served, refl, rw in_time (renewed, sent))
      ]
