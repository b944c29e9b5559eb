-- ===== src/Sock/Serve/SignedOn.antt =====
-- A request of a user with the right password and a live session: serve_client of
-- src/server/server_sock.c goes on to the action.
use bsle.Prelude.{
  ℕ, ◌+◌, ◌^◌, ◌≤◌, ◌<◌, ◌≡◌, ◌≢◌, refl, true, some, List, Bytes, length, ok, plenty, eq_bytes,
  ==_ne,
}
use bsle.Server.{UserAccount}
use bsle.Wire.{Payload, WirePayload, ActResp}
use bsle.Db.{Base, Db}
use bsle.Crypto.Compare.{IsSized}
use bsle.Db.Users.{db_authenticate_user-digest}
use bsle.Ctrl.Sessions.{check_session_in_time}
use bsle.Ctrl.Action.{Done, Env, session_step, perform, ctrl_parse_action}
use bsle.Sock.Stream.{arrive}
use bsle.Sock.{Conn}
use bsle.Sock.Read.Encode.{wire_bytes, IsText, IsRequest}
use bsle.Sock.Read.RoundTrip.{read_client_req-wire_bytes}
use bsle.Sock.Write.{WriteEvent, write_response}
use bsle.Sock.Serve.{respond, answer, serve_client}

-- A request with this name, password and session.
abbrev pub signed_request : Bytes → Bytes → ℕ → ℕ → ℕ → Payload → WirePayload
signed_request name passwd session_id opt_code payload_len load = record {
  opt_code = opt_code;
  user_flag = 0;
  username_len = length name;
  passwd_len = length passwd;
  session_id = session_id;
  username = some name;
  passwd = some passwd;
  payload_len = payload_len;
  payload = load;
}

module _ (base : Base) where
  open base use {os, sha, users, sessions}

  -- A user with the right password, and a session whose time is not over.
  pub record IsSignedOn (env : Env base) (db : Db base) (name passwd : Bytes) (user : UserAccount)
      (sesh : ℕ) : Type 0 where
    pub start : ℕ
    pub named : IsText (length name) (some name)
    pub secret : IsText (length passwd) (some passwd)
    pub found : users.get db.users_htable name ≡ some user
    pub sized : IsSized user.hash
    pub right : eq_bytes user.hash.array (sha.digest passwd) ≡ true
    pub given : sesh ≢ 0
    pub small : sesh < 2 ^ 32
    pub stored : sessions.get db.sesh_htable sesh ≡ some (some start)
    pub in_time : env.now ≤ start + env.timeout

  -- The database with the time of the session set.
  abbrev pub renewed : Db base → ℕ → ℕ → Db base
  renewed db sesh now = record db { sesh_htable = sessions.set db.sesh_htable sesh (some now) }

  ctrl_parse_action_signed_on :
      (env : Env base) (w : os.World) (db : Db base) (name passwd : Bytes) (user : UserAccount)
      (sesh opt_code payload_len : ℕ) (load : Payload) (done : Done base)
      → IsSignedOn env db name passwd user sesh
      → perform base plenty w
          (renewed db sesh env.now)
          user
          (signed_request name passwd sesh opt_code payload_len load)
        ≡ ok done
      → ctrl_parse_action base plenty env w db
          (signed_request name passwd sesh opt_code payload_len load)
        ≡ ok (some (done, sesh))
  unfolding ctrl_parse_action session_step
  ctrl_parse_action_signed_on env w db name passwd user sesh opt_code payload_len load done on
        acted =
      let auth =
        rw on.right at (
          db_authenticate_user-digest base plenty db name passwd user on.found on.sized refl
            refl) in
      let checked =
        check_session_in_time base plenty env.now env.timeout db.sesh_htable sesh on.start on.stored
          refl on.in_time in
      rw auth (rw (==_ne sesh 0 on.given) (rw checked (rw acted refl)))

  -- What the action leaves is what the connection leaves, and its response is what is written.
  pub serve_client_signed_on :
      (env : Env base) (rest : Conn) (evs left : List WriteEvent) (w w' : os.World)
      (db db' : Db base) (name passwd : Bytes) (user : UserAccount) (sesh opt_code payload_len : ℕ)
      (load : Payload) (resp : ActResp) (chunks : List Bytes)
      → IsSignedOn env db name passwd user sesh
      → IsRequest (signed_request name passwd sesh opt_code payload_len load)
      → perform base plenty w
          (renewed db sesh env.now)
          user
          (signed_request name passwd sesh opt_code payload_len load)
        ≡ ok (resp, db', w')
      → write_response plenty evs sesh resp ≡ ok (chunks, true, left)
      → serve_client base true true plenty plenty plenty plenty env
          (arrive (wire_bytes (signed_request name passwd sesh opt_code payload_len load)) rest)
          evs
          w
          db
        ≡ ok (chunks, db', w')
  unfolding serve_client answer respond
  serve_client_signed_on env rest evs left w w' db db' name passwd user sesh opt_code payload_len
        load resp chunks on sound acted wrote =
      let wire = signed_request name passwd sesh opt_code payload_len load in
      rw (read_client_req-wire_bytes plenty wire rest (λ i. refl) sound) (
        rw
          (ctrl_parse_action_signed_on env w db name passwd user sesh opt_code payload_len load
            (resp, db', w') on acted)
          (rw wrote refl))
