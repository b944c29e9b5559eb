-- ===== src/Sock/Serve/Creation.antt =====
-- A user who makes a user, and the new user who logs in: serve_client of src/server/server_sock.c with
-- ACT_USER_OPERATION, from the bytes of the request to those of the response.
use bsle.Prelude.{
  ℕ, ◌+◌, ◌^◌, ◌≤◌, ◌<◌, ◌≡◌, refl, true, false, none, some, List, Bytes, length, ok, plenty, arith,
  le→ltb,
}
use bsle.Server.{RetCode, UserAccount, act_user_operation, usr_act_create_user}
use bsle.Wire.{UserPayload, user_payload, WirePayload, set_resp}
use bsle.Db.{Base, Db, accounts_of, breaks_cred_rule, db_create_user}
use bsle.Db.Files.{db_update_db}
use bsle.Db.Made.{with_user, db_create_user_made}
use bsle.Ctrl.Action.{Env, user_action, user_operation, perform}
use bsle.Sock.{Conn}
use bsle.Sock.Stream.{arrive}
use bsle.Sock.Read.Encode.{wire_bytes, IsText, IsRequest}
use bsle.Sock.Write.{WriteEvent}
use bsle.Sock.Write.Sending.{Progress, sent_bytes}
use bsle.Sock.Write.Answer.{answer_bytes, write_response_answered, length-msg_success}
use bsle.Sock.Serve.{serve_client}
use bsle.Sock.Serve.SignedOn.{signed_request, IsSignedOn, renewed, serve_client_signed_on}

-- A new user: the name, the password, the permission.
pub record NewUser : Type 0 where
  pub username : Bytes
  pub passwd : Bytes
  pub permission : ℕ

-- The payload that asks for the user, and the request in a session.
abbrev pub new_payload : NewUser → UserPayload
new_payload u = record {
  user_flag = usr_act_create_user;
  user_perm = u.permission;
  username_len = length u.username;
  username = some u.username;
  passwd_len = length u.passwd;
  passwd = some u.passwd;
}

abbrev pub create_request : Bytes → Bytes → ℕ → NewUser → WirePayload
create_request name passwd session_id u =
    signed_request name passwd session_id act_user_operation
      (6 + length u.username + length u.passwd) (user_payload (new_payload u))

create_request-IsRequest :
    (name passwd : Bytes) (session_id : ℕ) (u : NewUser)
    → session_id < 2 ^ 32
    → u.permission < 256
    → IsText (length name) (some name)
    → IsText (length passwd) (some passwd)
    → IsText (length u.username) (some u.username)
    → IsText (length u.passwd) (some u.passwd)
    → IsRequest (create_request name passwd session_id u)
create_request-IsRequest name passwd session_id u small level named secret new_named new_secret =
    record {
      opt_code_fits = omega arith;
      user_flag_fits = omega arith;
      session_id_fits = small;
      payload_len_fits = omega (arith, new_named.3, new_secret.3);
      named = named;
      secret = secret;
      loaded = (refl, omega arith, level, new_named, (new_secret, refl));
    }

module _ (base : Base) where
  open base use {os, sha, users, sessions}

  -- The database with the new user, and the sessions as they were left.
  abbrev pub made_db : Db base → sessions.T → NewUser → Db base
  made_db db t u = record db {
    users_htable = with_user base db.users_htable u.username u.passwd u.permission;
    sesh_htable = t;
  }

  user_operation-made :
      (w w' : os.World) (db : Db base) (user : UserAccount) (u : NewUser)
      → u.permission ≤ user.permission
      → db_create_user base plenty w db (some u.username) (some u.passwd) u.permission
        ≡ ok (RetCode.op_success, made_db db db.sesh_htable u, w')
      → user_operation base plenty w db user (new_payload u)
        ≡ ok (set_resp RetCode.op_success, made_db db db.sesh_htable u, w')
  unfolding user_operation user_action
  user_operation-made w w' db user u low made =
      rw (le→ltb user.permission u.permission low) (rw made refl)

  perform-made :
      (w w' : os.World) (db : Db base) (user : UserAccount) (u : NewUser) (name passwd : Bytes)
      (sesh : ℕ)
      → user_operation base plenty w db user (new_payload u)
        ≡ ok (set_resp RetCode.op_success, made_db db db.sesh_htable u, w')
      → perform base plenty w db user (create_request name passwd sesh u)
        ≡ ok (set_resp RetCode.op_success, made_db db db.sesh_htable u, w')
  unfolding perform
  perform-made w w' db user u name passwd sesh acted = rw acted refl

  -- A new user that this user may make, under a name that is free, with a name and a password that keep
  -- the rule; and the files of the database can be written.
  pub record IsAllowed (w w' : os.World) (db : Db base) (user : UserAccount) (u : NewUser)
      : Type 0 where
    pub new_named : IsText (length u.username) (some u.username)
    pub new_secret : IsText (length u.passwd) (some u.passwd)
    pub level : u.permission < 256
    pub low : u.permission ≤ user.permission
    pub rule : breaks_cred_rule base u.username u.passwd ≡ false
    pub absent : users.get db.users_htable u.username ≡ none
    pub written :
        db_update_db os sha plenty w db.home_dir db.debug
          (accounts_of base (with_user base db.users_htable u.username u.passwd u.permission))
        ≡ ok w'

  -- A user with a session makes a user who may be made: if the bytes of the request arrive, memory does
  -- not run out, and the calls of `write` take at least a byte each and are at least 43, as many as the
  -- answer has bytes, then `serve_client` ends, the bytes that are sent are OP_SUCCESS, the session's time
  -- is now, and the table of users is as before but for the new account, which has the permission that
  -- was asked for and the digest of the password.
  pub serve_client_create :
      (env : Env base) (rest : Conn) (evs : List WriteEvent) (w w' : os.World) (db : Db base)
      (name passwd : Bytes) (user : UserAccount) (sesh : ℕ) (u : NewUser)
      → IsSignedOn base env db name passwd user sesh
      → IsAllowed w w' db user u
      → Progress evs
      → 43 ≤ length evs
      → (chunks : List Bytes) × (serve_client base true true plenty plenty plenty plenty env
            (arrive (wire_bytes (create_request name passwd sesh u)) rest)
            evs
            w
            db
          ≡ ok (chunks, made_db db (sessions.set db.sesh_htable sesh (some env.now)) u, w'))
        × (sent_bytes chunks ≡ answer_bytes sesh RetCode.op_success)
  serve_client_create env rest evs w w' db name passwd user sesh u on new p n =
      let db1 = renewed base db sesh env.now in
      let made =
        db_create_user_made base w w' db1 u.username u.passwd u.permission new.rule new.absent
          new.written in
      let (chunks, left, wrote, sent) =
        write_response_answered evs sesh RetCode.op_success p (omega (arith, length-msg_success)) in
      (
        chunks,
        serve_client_signed_on base env rest evs left w w' db (made_db db1 db1.sesh_htable u) name
            passwd user sesh act_user_operation (6 + length u.username + length u.passwd)
            (user_payload (new_payload u)) (set_resp RetCode.op_success) chunks on
            (create_request-IsRequest name passwd sesh u on.small new.level on.named on.secret
              new.new_named new.new_secret)
            (perform-made w w' db1 user u name passwd sesh
              (user_operation-made w w' db1 user u new.low made))
            wrote,
        sent,
      )
