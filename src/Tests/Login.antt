-- ===== src/Tests/Login.antt =====
-- Runs of the theorems on a user who logs in and comes back.
use bsle.Prelude.{
  ℕ, ◌≡◌, ◌≢◌, refl, true, false, none, some, List, [], ◌∷◌, arith, Bytes, codes, ok, plenty,
}
use bsle.Server.{RetCode, UserAccount}
use bsle.Db.{Db, breaks_cred_rule}
use bsle.Db.Files.{db_update_db}
use bsle.Db.Users.{account}
use bsle.Ctrl.{gen_session}
use bsle.Ctrl.Action.{Env}
use bsle.Sock.{Conn, closed}
use bsle.Sock.Stream.{arrive}
use bsle.Sock.Read.Encode.{wire_bytes, IsText}
use bsle.Sock.Write.Sending.{sent_bytes}
use bsle.Sock.Serve.{serve_client}
use bsle.Sock.Serve.Local.{local_request}
use bsle.Sock.Serve.Login.{LoggedIn, serve_client_login}
use bsle.Sock.Serve.Session.{CameBack, serve_client_session}
use bsle.Sock.Write.Answer.{answer_bytes}
use bsle.Sock.Serve.SignedOn.{IsSignedOn}
use bsle.Sock.Serve.Creation.{NewUser, create_request, IsAllowed}
use bsle.Sock.Serve.Newcomer.{create_then_login}
use bsle.Tests.Writes.{writes, writes-Progress}
use bsle.Tests.World.{base, empty_db}

abbrev name : Bytes
name = codes "alice"

abbrev passwd : Bytes
passwd = codes "secret"

abbrev alice : UserAccount
alice = account base name passwd 2

not_empty : {c : ℕ} {s : Bytes} → c ∷ s ≢ []
not_empty e = cc

name-IsText : IsText 5 (some name)
name-IsText = (
  refl,
  not_empty,
  (omega arith, (omega arith, (omega arith, (omega arith, (omega arith, tt))))),
  omega arith,
)

passwd-IsText : IsText 6 (some passwd)
passwd-IsText = (
  refl,
  not_empty,
  (omega arith, (omega arith, (omega arith, (omega arith, (omega arith, (omega arith, tt)))))),
  omega arith,
)

abbrev env : Env base
env = record { fuel = 1; rand = λ i. 1; now = 100; timeout = 60 }

abbrev conn : ℕ → Conn
conn session_id = arrive (wire_bytes (local_request name passwd session_id)) (closed ∷ [])

abbrev alice_db : Db base
alice_db = record empty_db { users_htable = base.users.set base.users.create name alice }

-- The session 9 since 50.
abbrev session_db : Db base
session_db = record alice_db { sesh_htable = base.sessions.set base.sessions.create 9 (some 50) }

unused : base.sessions.get alice_db.sesh_htable (gen_session env.rand 0) ≡ none
unfolding gen_session
unused = refl

serve_client_login_example :
    (chunks : List Bytes) × (db' : Db base) × (sesh : ℕ) × (serve_client base true true plenty
        plenty plenty plenty env
        (conn 0)
        writes
        []
        alice_db
      ≡ ok (chunks, db', []))
    × LoggedIn base true 100 alice_db db' sesh (sent_bytes chunks)
serve_client_login_example =
    serve_client_login base env (closed ∷ []) writes [] alice_db name passwd alice 0 name-IsText
      passwd-IsText refl refl (omega arith) unused writes-Progress (omega arith)

serve_client_session_example :
    (chunks : List Bytes) × (db' : Db base) × (serve_client base true true plenty plenty plenty
        plenty env
        (conn 9)
        writes
        []
        session_db
      ≡ ok (chunks, db', []))
    × (db'.users_htable ≡ session_db.users_htable)
    × CameBack base false 100 db' 9 (sent_bytes chunks)
serve_client_session_example =
    serve_client_session base env (closed ∷ []) writes [] session_db name passwd alice 9 50
      name-IsText passwd-IsText refl refl refl (omega arith) (omega arith) refl writes-Progress
      (omega arith)

abbrev bob : NewUser
bob = record { username = codes "bob"; passwd = codes "hidden"; permission = 1 }

bob-IsText : IsText 3 (some bob.username)
bob-IsText = (refl, not_empty, (omega arith, (omega arith, (omega arith, tt))), omega arith)

hidden-IsText : IsText 6 (some bob.passwd)
hidden-IsText = (
  refl,
  not_empty,
  (omega arith, (omega arith, (omega arith, (omega arith, (omega arith, (omega arith, tt)))))),
  omega arith,
)

alice-IsSignedOn : IsSignedOn base env session_db name passwd alice 9
alice-IsSignedOn = record {
  start = 50;
  named = name-IsText;
  secret = passwd-IsText;
  found = refl;
  sized = refl;
  right = refl;
  given = omega arith;
  small = omega arith;
  stored = refl;
  in_time = omega arith;
}

bob-IsAllowed : IsAllowed base [] [] session_db alice bob
unfolding breaks_cred_rule db_update_db
bob-IsAllowed = record {
  new_named = bob-IsText;
  new_secret = hidden-IsText;
  level = omega arith;
  low = omega arith;
  rule = refl;
  absent = refl;
  written = refl;
}

free_number : base.sessions.get session_db.sesh_htable (gen_session env.rand 0) ≡ none
unfolding gen_session
free_number = refl

create_then_login_example :
    (chunks : List Bytes) × (db' : Db base) × (chunks' : List Bytes) × (db'' : Db base)
    × (sesh' : ℕ) × (serve_client base true true plenty plenty plenty plenty env
          (arrive (wire_bytes (create_request name passwd 9 bob)) (closed ∷ []))
          writes
          []
          session_db
        ≡ ok (chunks, db', []))
    × (sent_bytes chunks ≡ answer_bytes 9 RetCode.op_success)
    × (serve_client base true true plenty plenty plenty plenty env
          (arrive (wire_bytes (local_request bob.username bob.passwd 0)) (closed ∷ []))
          writes
          []
          db'
        ≡ ok (chunks', db'', []))
    × LoggedIn base true 100 db' db'' sesh' (sent_bytes chunks')
create_then_login_example =
    create_then_login base env env (closed ∷ []) (closed ∷ []) writes writes [] [] session_db name
      passwd bob.passwd alice 9 0 bob alice-IsSignedOn bob-IsAllowed writes-Progress (omega arith)
      hidden-IsText (omega arith) free_number writes-Progress (omega arith)
