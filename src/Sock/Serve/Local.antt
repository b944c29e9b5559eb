-- ===== src/Sock/Serve/Local.antt =====
-- A request of ACT_LOCAL_OPERATION, and serve_client of src/server/server_sock.c on a request that is
-- answered with no content.
use bsle.Prelude.{
  ℕ, ◌+◌, ◌≤◌, ◌<◌, ◌≡◌, refl, true, some, List, Bytes, length, ok, plenty, arith, ◌^◌,
}
use bsle.Server.{RetCode, act_local_operation}
use bsle.Wire.{no_payload, WirePayload, set_resp, get_err_msg}
use bsle.Db.{Base, Db}
use bsle.Ctrl.Action.{Env, ctrl_parse_action}
use bsle.Sock.{Conn}
use bsle.Sock.Read.{request, read_client_req}
use bsle.Sock.Read.Encode.{IsText, IsRequest}
use bsle.Sock.Write.{WriteEvent}
use bsle.Sock.Write.Sending.{Progress, sent_bytes}
use bsle.Sock.Write.Answer.{answer_bytes, write_response_answered}
use bsle.Sock.Serve.{respond, answer, serve_client}

-- The request with this name, password and session, and no payload.
abbrev pub local_request : Bytes → Bytes → ℕ → WirePayload
local_request name passwd session_id = record {
  opt_code = act_local_operation;
  user_flag = 0;
  username_len = length name;
  passwd_len = length passwd;
  session_id = session_id;
  username = some name;
  passwd = some passwd;
  payload_len = 0;
  payload = no_payload;
}

pub local_request-IsRequest :
    (name passwd : Bytes) (session_id : ℕ)
    → session_id < 2 ^ 32
    → IsText (length name) (some name)
    → IsText (length passwd) (some passwd)
    → IsRequest (local_request name passwd session_id)
local_request-IsRequest name passwd session_id small named secret = record {
  opt_code_fits = omega arith;
  user_flag_fits = omega arith;
  session_id_fits = small;
  payload_len_fits = omega arith;
  named = named;
  secret = secret;
  loaded = refl;
}

module _ (base : Base) where
  open base use {os, sha, users, sessions}

  -- A request that is read, performed and answered with no content.
  pub serve_client_answered :
      (env : Env base) (conn : Conn) (evs : List WriteEvent) (w w' : os.World) (db db' : Db base)
      (wire : WirePayload) (code : RetCode) (sesh : ℕ)
      → read_client_req plenty conn ≡ ok (request wire)
      → ctrl_parse_action base plenty env w db wire ≡ ok (some ((set_resp code, db', w'), sesh))
      → Progress evs
      → 15 + length (get_err_msg code) ≤ length evs
      → (chunks : List Bytes) × (serve_client base true true plenty plenty plenty plenty env conn
            evs w db
          ≡ ok (chunks, db', w'))
        × (sent_bytes chunks ≡ answer_bytes sesh code)
  unfolding serve_client answer respond
  serve_client_answered env conn evs w w' db db' wire code sesh read acted p n =
      let (chunks, left, wrote, sent) = write_response_answered evs sesh code p n in
      (chunks, rw read (rw acted (rw wrote refl)), sent)
