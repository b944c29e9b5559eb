-- ===== src/Sock/Serve/Reach.antt =====
-- Connections that serve_client of src/server/server_sock.c serves one after the other, as steps of the
-- server, and the accounts that they leave.
use bsle.Prelude.{
  eq_bytes, bind_ok, ℕ, ◌≤◌, ◌≡◌, inl, inr, refl, sym, ap, ◌∙◌, Bool, true, false, Bool-cases,
  Option, none, some, List, Bytes, Run, ok, fault, stuck, ◌>>=◌, Mem, later, arith,
}
use bsle.Server.{RetCode, UserAccount}
use bsle.Db.{Base, Db}
use bsle.Db.Change.{Change, Found, old, new, Change-Found}
use bsle.Db.Registered.{IsRegistered, account-IsRegistered}
use bsle.Db.Users.{db_authenticate_user_known}
use bsle.Wire.{WirePayload, set_resp}
use bsle.Crypto.Compare.{IsSized}
use bsle.Ctrl.Action.{Done, Env, ctrl_parse_action}
use bsle.Ctrl.Action.Handler.{idle, acted, ctrl_parse_action-ChangeBy}
use bsle.Sock.{Conn}
use bsle.Sock.Read.{Request, request, refused, read_client_req}
use bsle.Sock.Write.{WriteEvent, write_response}
use bsle.Sock.Serve.{drop_request, respond, answer, serve_client}

module _ (base : Base) where
  open base use {os, sha, users, sessions}

  -- The table of users is as before, or the connection brought a request with the name of a stored user
  -- and a password with the digest that is stored for that user, and the table changed in one of the ways
  -- that the user's permission allows.
  pub data Authorized (reading : Mem) (conn : Conn) (t t' : users.T) : Type 0 where
    same : t' ≡ t → Authorized reading conn t t'
    by :
        (wire : WirePayload) (name passwd : Bytes) (user : UserAccount)
        → read_client_req reading conn ≡ ok (request wire)
        → wire.username ≡ some name
        → wire.passwd ≡ some passwd
        → users.get t name ≡ some user
        → eq_bytes user.hash.array (sha.digest passwd) ≡ true
        → Change base user.permission t t'
        → Authorized reading conn t t'

  -- Every stored hash has the size of its array.
  abbrev pub AllSized : users.T → Type 0
  AllSized t = (name : Bytes) (a : UserAccount) → users.get t name ≡ some a → IsSized a.hash

  sent_same :
      (m : Run (List Bytes × Bool × List WriteEvent)) (db : Db base) (w : os.World)
      {sent : List Bytes} {db' : Db base} {w' : os.World}
      → ◌>>=◌ {B = List Bytes × Db base × os.World} m (λ r. ok (r.0, db, w)) ≡ ok (sent, db', w')
      → db'.users_htable ≡ db.users_htable
  sent_same (ok r) db w e = ground arith
  sent_same fault db w e = cc
  sent_same stuck db w e = cc

  drop_request-same :
      (mem : Mem) (evs : List WriteEvent) (w : os.World) (db : Db base) (code : RetCode)
      (session_id : ℕ) {sent : List Bytes} {db' : Db base} {w' : os.World}
      → drop_request base mem evs w db code session_id ≡ ok (sent, db', w')
      → db'.users_htable ≡ db.users_htable
  unfolding drop_request
  drop_request-same mem evs w db RetCode.op_sock_closed session_id {sent} {db'} e =
      elim (Bool-cases (mem 0)) [
        | inl m ↦ let e' = rw m at e in ground arith
        | inr m ↦ let e' = rw m at e in ground arith
      ]
  drop_request-same mem evs w db code session_id {sent} {db'} e = elim (Bool-cases (mem 0)) [
    | inl m ↦
        let dropped = record db { sesh_htable = (sessions.del db.sesh_htable session_id).1 } in
        sent_same (write_response (later 1 mem) evs 0 (set_resp code)) dropped w (rw m at e)
    | inr m ↦ let e' = rw m at e in ground arith
  ]

  respond-same :
      (mem : Mem) (evs : List WriteEvent) (o : Option (Done base × ℕ)) {sent : List Bytes}
      {db' : Db base} {w' : os.World}
      → respond base mem evs o ≡ ok (sent, db', w')
      → (done : Done base) × (session_id : ℕ) × (o ≡ some (done, session_id)) × (done.1 ≡ db')
  unfolding respond
  respond-same mem evs none e = cc
  respond-same mem evs (some ((resp, db, w), session_id)) e =
      let (r, ran, given) =
        bind_ok (write_response mem evs session_id resp) (λ sent. ok (sent.0, db, w)) e in
      ((resp, db, w), session_id, refl, ground arith)

  answer-Authorized :
      (reading dropped acting sending : Mem) (env : Env base) (conn : Conn) (evs : List WriteEvent)
      (w : os.World) (db : Db base) (r : Request) {sent : List Bytes} {db' : Db base}
      {w' : os.World}
      → AllSized db.users_htable
      → read_client_req reading conn ≡ ok r
      → answer base dropped acting sending env evs w db r ≡ ok (sent, db', w')
      → Authorized reading conn db.users_htable db'.users_htable
  unfolding answer
  answer-Authorized reading dropped acting sending env conn evs w db (refused code session_id) sized
        read e =
      same (drop_request-same dropped evs w db code session_id e)
  answer-Authorized reading dropped acting sending env conn evs w db (request wire) {sent} {db'}
        {w'} sized read e =
      let (o, ran, answered) =
        bind_ok (ctrl_parse_action base acting env w db wire) (respond base sending evs) e in
      let ((resp, db1, w1), sid, is, kept) = respond-same sending evs o answered in
      let change =
        ctrl_parse_action-ChangeBy base w db wire resp db1 w1 sid acting env
          (ran ∙ ap (λ (x : Option (Done base × ℕ)). ok x) is) in
      rw (← kept) (elim change [
        | idle unmoved ↦ same unmoved
        | acted user known changed ↦
            let (name, passwd, named, given, stored, digest) =
              db_authenticate_user_known base (later 1 acting) db wire.username wire.passwd user
                sized known in
            by wire name passwd user read named given stored digest changed
      ])

  -- Whatever arrives on a connection, if every stored hash has the size of its array: the table of users is
  -- afterwards as before, or the connection brought a request with the name of a stored user and a password
  -- with that user's digest, and one user is made, with at most the permission of that user, or a name is
  -- removed, and that user has the permission ADMIN.
  pub serve_client-Authorized :
      (timeout_set room : Bool) (reading dropped acting sending : Mem) (env : Env base)
      (conn : Conn) (evs : List WriteEvent) (w : os.World) (db : Db base) {sent : List Bytes}
      {db' : Db base} {w' : os.World}
      → AllSized db.users_htable
      → serve_client base timeout_set room reading dropped acting sending env conn evs w db
        ≡ ok (sent, db', w')
      → Authorized reading conn db.users_htable db'.users_htable
  unfolding serve_client
  serve_client-Authorized false room reading dropped acting sending env conn evs w db sized e =
      same (ground arith)
  serve_client-Authorized true false reading dropped acting sending env conn evs w db sized e =
      same (ground arith)
  serve_client-Authorized true true reading dropped acting sending env conn evs w db sized e =
      let (r, read, answered) =
        bind_ok (read_client_req reading conn) (answer base dropped acting sending env evs w db)
          e in
      answer-Authorized reading dropped acting sending env conn evs w db r sized read answered

  -- The server between two connections.
  pub record State : Type 0 where
    pub db : Db base
    pub world : os.World

  -- A connection that is served to its end, with whatever it brings, whatever memory allows and whatever
  -- the clock and `rand` say.
  pub data Step (s s' : State) : Type 0 where
    connection :
        (timeout_set room : Bool) (reading dropped acting sending : Mem) (env : Env base)
        (conn : Conn) (evs : List WriteEvent) (sent : List Bytes)
        → serve_client base timeout_set room reading dropped acting sending env conn evs s.world
            s.db
          ≡ ok (sent, s'.db, s'.world)
        → Step s s'

  pub data Reach (s : State) : State → Type 0 where
    here : Reach s s
    next : {s' s'' : State} → Reach s s' → Step s' s'' → Reach s s''

  -- Every account is registered.
  abbrev pub IsSafe : ℕ → State → Type 0
  IsSafe limit s =
      (name : Bytes) (a : UserAccount)
      → users.get s.db.users_htable name ≡ some a
      → IsRegistered limit name a

  Found-IsRegistered :
      (limit : ℕ) (s : State) (name : Bytes) (a : UserAccount) (level : ℕ)
      → IsSafe limit s
      → level ≤ limit
      → Found base level s.db.users_htable name a
      → IsRegistered limit name a
  Found-IsRegistered limit s name a level safe low (old was) = safe name a was
  Found-IsRegistered limit s name a level safe low (new passwd permission rule below made) =
      rw (← made) (account-IsRegistered base limit name passwd permission (omega arith))

  pub Step-IsSafe : (limit : ℕ) {s s' : State} → Step s s' → IsSafe limit s → IsSafe limit s'
  Step-IsSafe limit {s} {s'} (connection ts room rd dr act snd env conn evs sent e) safe name a
        found =
      elim (serve_client-Authorized ts room rd dr act snd env conn evs s.world s.db
        (λ k b is. let known = safe k b is in known.sized ∙ sym known.full) e) [
          | same unmoved ↦
              safe name a (ap (λ (t : users.T). users.get t name) (sym unmoved) ∙ found)
          | by wire actor passwd user read named given stored digest change ↦
              Found-IsRegistered limit s name a user.permission safe (safe actor user stored).level
                (Change-Found base user.permission s.db.users_htable s'.db.users_htable name a
                  change found)
        ]

  -- Over any sequence of connections, with whatever they bring and whatever fails on the way, every account
  -- stays under its own name, keeps a hash of 32 bytes, and has no more permission than the highest
  -- with which the server began.
  pub Reach-IsSafe : (limit : ℕ) {s s' : State} → IsSafe limit s → Reach s s' → IsSafe limit s'
  Reach-IsSafe limit safe here = safe
  Reach-IsSafe limit safe (next run step) = Step-IsSafe limit step (Reach-IsSafe limit safe run)
