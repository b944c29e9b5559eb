-- ===== src/Sock/Serve/Newcomer.antt =====
-- Two connections that serve_client of src/server/server_sock.c serves: one on which a user is made, and
-- one on which the new user logs in.
use bsle.Prelude.{
  ℕ, ◌+◌, ◌*◌, ◌≤◌, ◌<◌, ◌≡◌, ◌∙◌, ap, refl, true, Bool-cases, inl, inr, Option, none, some, List,
  Bytes, length, ok, plenty, sym, eq_bytes, eq_bytes_refl, ==_iff,
}
use bsle.Server.{RetCode, UserAccount}
use bsle.Db.{Base, Db, eq_session}
use bsle.Db.Users.{account}
use bsle.Ctrl.{gen_session}
use bsle.Ctrl.Action.{Env}
use bsle.Sock.{Conn}
use bsle.Sock.Stream.{arrive}
use bsle.Sock.Read.Encode.{wire_bytes, IsText}
use bsle.Sock.Write.{WriteEvent}
use bsle.Sock.Write.Sending.{Progress, sent_bytes}
use bsle.Sock.Write.Answer.{answer_bytes}
use bsle.Sock.Serve.{serve_client}
use bsle.Sock.Serve.Local.{local_request}
use bsle.Sock.Serve.Login.{LoggedIn, serve_client_login}
use bsle.Sock.Serve.SignedOn.{IsSignedOn}
use bsle.Sock.Serve.Creation.{NewUser, create_request, made_db, IsAllowed, serve_client_create}

module _ (base : Base) where
  open base use {os, sha, users, sessions}

  -- A number that is free stays free when the time of a session is set.
  free_after :
      (t : sessions.T) (sesh x : ℕ) (start now : Option ℕ)
      → sessions.get t sesh ≡ some start
      → sessions.get t x ≡ none
      → sessions.get (sessions.set t sesh now) x ≡ none
  free_after t sesh x start now stored free = elim (Bool-cases (eq_session sesh x)) [
    | inl same ↦ let e = (==_iff sesh x).0 same in cc (sym stored ∙ ap (sessions.get t) e ∙ free)
    | inr other ↦ sessions.get-set t sesh x now ∙ rw other free
  ]

  -- A user makes a user, and then someone logs in with the new name and some password. Both requests
  -- arrive, memory does not run out, the calls of `write` take at least a byte each and are at least 43
  -- and 55, the one is signed on and may make the other, and the search for a session has the rounds
  -- to reach a number that was free: then both connections are served. The first is answered
  -- OP_SUCCESS; the second begins a session exactly if the digest of its password is that of the
  -- password that the first gave, and is refused otherwise.
  pub create_then_login :
      (env env' : Env base) (rest rest' : Conn) (evs evs' : List WriteEvent) (w w' : os.World)
      (db : Db base) (name passwd given : Bytes) (user : UserAccount) (sesh k : ℕ) (u : NewUser)
      → IsSignedOn base env db name passwd user sesh
      → IsAllowed base w w' db user u
      → Progress evs
      → 43 ≤ length evs
      → IsText (length given) (some given)
      → k < env'.fuel
      → sessions.get db.sesh_htable (gen_session env'.rand (0 + 4 * k)) ≡ none
      → Progress evs'
      → 55 ≤ length evs'
      → (chunks : List Bytes) × (db' : Db base) × (chunks' : List Bytes) × (db'' : Db base)
        × (sesh' : ℕ) × (serve_client base true true plenty plenty plenty plenty env
              (arrive (wire_bytes (create_request name passwd sesh u)) rest)
              evs
              w
              db
            ≡ ok (chunks, db', w'))
        × (sent_bytes chunks ≡ answer_bytes sesh RetCode.op_success)
        × (serve_client base true true plenty plenty plenty plenty env'
              (arrive (wire_bytes (local_request u.username given 0)) rest')
              evs'
              w'
              db'
            ≡ ok (chunks', db'', w'))
        × LoggedIn base
            (eq_bytes (sha.digest u.passwd) (sha.digest given))
            env'.now
            db'
            db''
            sesh'
            (sent_bytes chunks')
  create_then_login env env' rest rest' evs evs' w w' db name passwd given user sesh k u on new p n
        typed enough free p' n' =
      let t = sessions.set db.sesh_htable sesh (some env.now) in
      let db' = made_db base db t u in
      let acct = account base u.username u.passwd u.permission in
      let found : users.get db'.users_htable u.username ≡ some acct =
        users.get-set db.users_htable u.username u.username acct
        ∙ rw (eq_bytes_refl u.username) refl in
      let (chunks, served, sent) =
        serve_client_create base env rest evs w w' db name passwd user sesh u on new p n in
      let (chunks', db'', sesh', served', ends) =
        serve_client_login base env' rest' evs' w' db' u.username given acct k new.new_named typed
          found (sym (sha.length-digest u.passwd)) enough
          (free_after db.sesh_htable sesh (gen_session env'.rand (0 + 4 * k)) (some on.start)
            (some env.now) on.stored free)
          p' n' in
      (chunks, db', chunks', db'', sesh', served, sent, served', ends)
