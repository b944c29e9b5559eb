-- ===== src/Sock/Serve/Login.antt =====
-- A user who logs in, from the bytes of the request to those of the response: serve_client of
-- src/server/server_sock.c with ACT_LOCAL_OPERATION and no session yet.
use bsle.Prelude.{
  ℕ, ◌+◌, ◌*◌, ◌≤◌, ◌<◌, ◌≡◌, refl, true, false, Bool, none, some, List, Bytes, length, ok, plenty,
  Bool-cases, inl, inr, arith, eq_bytes,
}
use bsle.Server.{RetCode, UserAccount}
use bsle.Wire.{set_resp}
use bsle.Db.{Base, Db, db_authenticate_user}
use bsle.Crypto.Compare.{IsSized}
use bsle.Db.Users.{db_authenticate_user-digest}
use bsle.Ctrl.{gen_session, fresh_session, generate_session_id}
use bsle.Ctrl.Sessions.{fresh_session_total}
use bsle.Ctrl.Action.{Env, session_step, perform, ctrl_parse_action}
use bsle.Sock.{Conn}
use bsle.Sock.Stream.{arrive}
use bsle.Sock.Read.Encode.{wire_bytes, IsText}
use bsle.Sock.Read.RoundTrip.{read_client_req-wire_bytes}
use bsle.Sock.Write.{WriteEvent}
use bsle.Sock.Write.Sending.{Progress, sent_bytes}
use bsle.Sock.Write.Answer.{answer_bytes, length-msg_refused, length-msg_success}
use bsle.Sock.Serve.{serve_client}
use bsle.Sock.Serve.Local.{local_request, local_request-IsRequest, serve_client_answered}

module _ (base : Base) where
  open base use {os, sha, users, sessions}

  -- The database with a session that began now.
  abbrev with_session : Db base → ℕ → ℕ → Db base
  with_session db sesh now = record db { sesh_htable = sessions.set db.sesh_htable sesh (some now) }

  session_step-new :
      (env : Env base) (t : sessions.T) (sesh : ℕ)
      → fresh_session base env.fuel env.rand 0 t ≡ ok sesh
      → session_step base plenty env t 0
        ≡ ok (RetCode.op_success, sessions.set t sesh (some env.now), sesh)
  unfolding session_step generate_session_id
  session_step-new env t sesh e = rw e refl

  -- What the controller answers to the right password, and to a wrong one.
  ctrl_parse_action_login :
      (env : Env base) (w : os.World) (db : Db base) (name passwd : Bytes) (user : UserAccount)
      (sesh : ℕ)
      → db_authenticate_user base plenty db (some name) (some passwd)
        ≡ ok (RetCode.op_success, some user)
      → fresh_session base env.fuel env.rand 0 db.sesh_htable ≡ ok sesh
      → ctrl_parse_action base plenty env w db (local_request name passwd 0)
        ≡ ok (some ((set_resp RetCode.op_success, with_session db sesh env.now, w), sesh))
  unfolding ctrl_parse_action perform
  ctrl_parse_action_login env w db name passwd user sesh auth free =
      rw auth (rw (session_step-new env db.sesh_htable sesh free) refl)

  ctrl_parse_action_refused :
      (env : Env base) (w : os.World) (db : Db base) (name passwd : Bytes)
      → db_authenticate_user base plenty db (some name) (some passwd)
        ≡ ok (RetCode.op_user_auth, none)
      → ctrl_parse_action base plenty env w db (local_request name passwd 0)
        ≡ ok (some ((set_resp RetCode.op_user_auth, db, w), 0))
  unfolding ctrl_parse_action
  ctrl_parse_action_refused env w db name passwd auth = rw auth refl

  -- What a log-in comes to, for the right password and for a wrong one: the database, the session, and
  -- the bytes that were sent.
  abbrev pub LoggedIn : Bool → ℕ → Db base → Db base → ℕ → Bytes → Type 0
  LoggedIn true now db db' sesh sent =
      (sessions.get db.sesh_htable sesh ≡ none)
      × (db' ≡ with_session db sesh now)
      × (sent ≡ answer_bytes sesh RetCode.op_success)
  LoggedIn false now db db' sesh sent = (db' ≡ db) × (sent ≡ answer_bytes 0 RetCode.op_user_auth)

  -- A user of the table who logs in. The bytes of the request arrive, memory does not run out, the calls of
  -- `write` take at least a byte each and are at least 55, as many as the longer answer has bytes, and the search for a
  -- session has the rounds to reach a number that is free: then `serve_client` ends, with the files
  -- as they were. If the digest of the password is the stored one, a new session begins now, under a
  -- number that was free, and the bytes that are sent are OP_SUCCESS with that number; otherwise
  -- nothing changes, and they are OP_USER_AUTH with no session.
  pub serve_client_login :
      (env : Env base) (rest : Conn) (evs : List WriteEvent) (w : os.World) (db : Db base)
      (name passwd : Bytes) (user : UserAccount) (k : ℕ)
      → IsText (length name) (some name)
      → IsText (length passwd) (some passwd)
      → users.get db.users_htable name ≡ some user
      → IsSized user.hash
      → k < env.fuel
      → sessions.get db.sesh_htable (gen_session env.rand (0 + 4 * k)) ≡ none
      → Progress evs
      → 55 ≤ length evs
      → (chunks : List Bytes) × (db' : Db base) × (sesh : ℕ) × (serve_client base true true plenty
            plenty plenty plenty env
            (arrive (wire_bytes (local_request name passwd 0)) rest)
            evs
            w
            db
          ≡ ok (chunks, db', w))
        × LoggedIn
            (eq_bytes user.hash.array (sha.digest passwd))
            env.now
            db
            db'
            sesh
            (sent_bytes chunks)
  serve_client_login env rest evs w db name passwd user k named secret found sized enough free p n =
      let auth =
        db_authenticate_user-digest base plenty db name passwd user found sized refl refl in
      let (sesh, ends, unused) =
        fresh_session_total base k env.fuel env.rand 0 db.sesh_htable enough free in
      let wire = local_request name passwd 0 in
      let read =
        read_client_req-wire_bytes plenty wire rest (λ i. refl)
          (local_request-IsRequest name passwd 0 (omega arith) named secret) in
      elim (Bool-cases (eq_bytes user.hash.array (sha.digest passwd))) [
        | inl right ↦
            let db' = with_session db sesh env.now in
            let acted =
              ctrl_parse_action_login env w db name passwd user sesh (rw right at auth) ends in
            let (chunks, served, sent) =
              serve_client_answered base env (arrive (wire_bytes wire) rest) evs w w db db' wire
                RetCode.op_success sesh read acted p (omega (arith, length-msg_success)) in
            (chunks, db', sesh, served, rw right (unused, refl, sent))
        | inr wrong ↦
            let acted = ctrl_parse_action_refused env w db name passwd (rw wrong at auth) in
            let (chunks, served, sent) =
              serve_client_answered base env (arrive (wire_bytes wire) rest) evs w w db db wire
                RetCode.op_user_auth 0 read acted p (omega (arith, length-msg_refused)) in
            (chunks, db, 0, served, rw wrong (refl, sent))
      ]
