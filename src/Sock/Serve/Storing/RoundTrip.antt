-- ===== src/Sock/Serve/Storing/RoundTrip.antt =====
-- Two connections that serve_client of src/server/server_sock.c serves: one that puts a file, and one
-- that gets it.
use bsle.Prelude.{
  true, if_true, ℕ, ◌+◌, ◌≤◌, ◌≡◌, ◌∙◌, refl, some, List, ◌++◌, Bytes, length, ok, plenty, arith,
  le→ltb, ==_refl,
}
use bsle.Server.{RetCode, UserAccount, act_put_remote_file, act_get_remote_file, perm_read_write}
use bsle.Paths.{basename}
use bsle.Paths.Join.{joined}
use bsle.Wire.{std_payload, ActResp, set_resp}
use bsle.Db.{Base, Db}
use bsle.Ctrl.{do_put_file, do_get_file}
use bsle.Ctrl.Action.{Env, write_operation, read_operation, perform}
use bsle.Sock.{Conn}
use bsle.Sock.Stream.{arrive}
use bsle.Sock.Read.Encode.{wire_bytes}
use bsle.Sock.Write.{WriteEvent}
use bsle.Sock.Write.Sending.{Progress, sent_bytes}
use bsle.Sock.Write.Answer.{
  answer_bytes, content_bytes, content_resp, whole_file, length-msg_success,
  write_response_answered, write_response_content,
}
use bsle.Sock.Serve.{serve_client}
use bsle.Sock.Serve.SignedOn.{IsSignedOn, renewed, serve_client_signed_on}
use bsle.Sock.Serve.Storing.{
  Sent, put_payload, get_payload, put_len, put_request, get_request, IsSendable, IsNew, IsKept,
  put_request-IsRequest, get_request-IsRequest, do_put_file-new, do_get_file-kept,
}

module _ (base : Base) where
  open base use {os, sha, sessions}

  perform-put :
      (w w' : os.World) (db : Db base) (user : UserAccount) (name passwd : Bytes) (sesh : ℕ)
      (f : Sent)
      → perm_read_write ≤ user.permission
      → do_put_file base plenty w db (put_payload f) ≡ ok (RetCode.op_success, w')
      → perform base plenty w db user (put_request name passwd sesh f)
        ≡ ok (set_resp RetCode.op_success, db, w')
  unfolding perform write_operation
  perform-put w w' db user name passwd sesh f may written =
      rw (le→ltb user.permission perm_read_write may) (rw written refl)

  perform-get :
      (w w' : os.World) (db : Db base) (user : UserAccount) (name passwd path : Bytes) (sesh : ℕ)
      (resp : ActResp)
      → do_get_file base plenty w db (get_payload path) ≡ ok (resp, w')
      → perform base plenty w db user (get_request name passwd sesh path) ≡ ok (resp, db, w')
  unfolding perform read_operation
  perform-get w w' db user name passwd path sesh resp got = rw got refl

  -- Who is signed on is so after a request, until the timeout has gone by again.
  IsSignedOn-renewed :
      (env env' : Env base) (db : Db base) (name passwd : Bytes) (user : UserAccount) (sesh : ℕ)
      → IsSignedOn base env db name passwd user sesh
      → env'.now ≤ env.now + env'.timeout
      → IsSignedOn base env' (renewed base db sesh env.now) name passwd user sesh
  IsSignedOn-renewed env env' db name passwd user sesh on soon = record {
    start = env.now;
    named = on.named;
    secret = on.secret;
    found = on.found;
    sized = on.sized;
    right = on.right;
    given = on.given;
    small = on.small;
    stored =
        sessions.get-set db.sesh_htable sesh sesh (some env.now)
        ∙ if_true (some (some env.now)) (sessions.get db.sesh_htable sesh) (==_refl sesh);
    in_time = soon;
  }

  -- A file that is put is got back. A user who is signed on and has READ_WRITE puts a new file that can be
  -- sent, with any 32 bytes for its digest, and gets it before the timeout; memory does not run out, the
  -- calls of `write` take at least a byte each and are at least 43 and 75 and the bytes of the file, the
  -- file system takes the bytes, and keeps them: then both connections are served, the first answered
  -- OP_SUCCESS, the second with the digest of the bytes, and the bytes. The digest that was sent is not
  -- looked at.
  pub put_then_get :
      (env env' : Env base) (rest rest' : Conn) (evs evs' : List WriteEvent) (w w' w'' : os.World)
      (db : Db base) (name passwd below : Bytes) (user : UserAccount) (sesh : ℕ) (f : Sent)
      → IsSignedOn base env db name passwd user sesh
      → env'.now ≤ env.now + env'.timeout
      → perm_read_write ≤ user.permission
      → IsSendable f
      → IsNew base w db.home_dir below f w'
      → IsKept base w' db.home_dir below f w''
      → Progress evs
      → 43 ≤ length evs
      → Progress evs'
      → 75 + length f.stream ≤ length evs'
      → (chunks : List Bytes) × (chunks' : List Bytes) × (db' : Db base) × (db'' : Db base)
        × (serve_client base true true plenty plenty plenty plenty env
              (arrive (wire_bytes (put_request name passwd sesh f)) rest)
              evs
              w
              db
            ≡ ok (chunks, db', w'))
        × (sent_bytes chunks ≡ answer_bytes sesh RetCode.op_success)
        × (serve_client base true true plenty plenty plenty plenty env'
              (arrive (wire_bytes (get_request name passwd sesh f.path)) rest')
              evs'
              w'
              db'
            ≡ ok (chunks', db'', w''))
        × (sent_bytes chunks' ≡ content_bytes sesh (sha.digest f.stream) f.stream)
  put_then_get env env' rest rest' evs evs' w w' w'' db name passwd below user sesh f on soon may s
        new kept p n p' n' =
      let db' = renewed base db sesh env.now in
      let db'' = renewed base db' sesh env'.now in
      let path = joined (db.home_dir ++ below) (basename f.path) in
      let resp = content_resp (whole_file path (sha.digest f.stream) f.stream) in
      let on' = IsSignedOn-renewed env env' db name passwd user sesh on soon in
      let (chunks, left, wrote, sent) =
        write_response_answered evs sesh RetCode.op_success p (omega (arith, length-msg_success)) in
      let (chunks', left', wrote', sent') =
        write_response_content sesh path (sha.digest f.stream) f.stream (sha.length-digest f.stream)
          evs' p' n' in
      (
        chunks,
        chunks',
        db',
        db'',
        serve_client_signed_on base env rest evs left w w' db db' name passwd user sesh
            act_put_remote_file (put_len f) (std_payload (put_payload f))
            (set_resp RetCode.op_success) chunks on
            (put_request-IsRequest name passwd sesh f on.small on.named on.secret s)
            (perform-put w w' db' user name passwd sesh f may
              (do_put_file-new base w w' db' below f new))
            wrote,
        sent,
        serve_client_signed_on base env' rest' evs' left' w' w'' db' db'' name passwd user sesh
            act_get_remote_file (2 + length f.path) (std_payload (get_payload f.path)) resp chunks'
            on' (get_request-IsRequest name passwd sesh f on.small on.named on.secret s)
            (perform-get w' w'' db'' user name passwd f.path sesh resp
              (do_get_file-kept base w' w'' db'' below f new.fits s.filled kept))
            wrote',
        sent',
      )
