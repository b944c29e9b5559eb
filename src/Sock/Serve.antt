-- ===== src/Sock/Serve.antt =====
-- `serve_client` of src/server/server_sock.c: one connection from its request to its response. What is
-- freed after the response is in Release.
pub mod Reach
pub mod Bounds
pub mod Local
pub mod Login
pub mod Session
pub mod SignedOn
pub mod Creation
pub mod Newcomer
pub mod Storing
use bsle.Prelude.{
  ℕ, Bool, Option, none, some, List, [], Bytes, Run, ok, fault, ◌>>=◌, Mem, later, if◌then◌else◌,
}
use bsle.Server.{RetCode}
use bsle.Wire.{set_resp}
use bsle.Db.{Base, Db}
use bsle.Ctrl.Action.{Done, Env, ctrl_parse_action}
use bsle.Sock.{Conn}
use bsle.Sock.Read.{Request, request, refused, read_client_req}
use bsle.Sock.Write.{WriteEvent, write_response}

module _ (base : Base) where
  open base use {os, sessions}

  -- What one connection leaves: what was sent, in one piece for each call of `write`; the database;
  -- the file system.
  abbrev pub Served : Type 0
  Served = List Bytes × Db base × os.World

  -- A request that could not be read: it is answered unless the connection is closed, and the session
  -- that it named is removed. The allocations are the response and the packet.
  drop_request : Mem → List WriteEvent → os.World → Db base → RetCode → ℕ → Run Served
  drop_request mem evs w db code session_id =
      let db' = record db { sesh_htable = (sessions.del db.sesh_htable session_id).1 } in
      let answered =
        write_response (later 1 mem) evs 0 (set_resp code) >>= (λ sent. ok (sent.0, db', w)) in
      if mem 0
      then elim code [ RetCode.op_sock_closed ↦ ok ([], db', w) | _ ↦ answered ]
      else ok ([], db', w)

  -- `write_response` of a NULL response is a fault.
  respond : Mem → List WriteEvent → Option (Done base × ℕ) → Run Served
  respond mem evs none = fault
  respond mem evs (some ((resp, db, w), session_id)) =
      write_response mem evs session_id resp >>= λ sent. ok (sent.0, db, w)

  answer : Mem → Mem → Mem → Env base → List WriteEvent → os.World → Db base → Request → Run Served
  unfolding drop_request respond
  answer dropped acted sent env evs w db (refused code session_id) =
      drop_request dropped evs w db code session_id
  answer dropped acted sent env evs w db (request wire) =
      ctrl_parse_action base acted env w db wire >>= respond sent evs

  -- The socket's timeout may fail to be set. The allocations of the reading, of a failure, of the
  -- action and of the response are given apart, since their number depends on the request; the first
  -- is the request itself.
  unfoldable pub serve_client :
      Bool
      → Bool
      → Mem
      → Mem
      → Mem
      → Mem
      → Env base
      → Conn
      → List WriteEvent
      → os.World
      → Db base
      → Run Served
  unfolding answer
  serve_client timeout_set room reading dropped acted sent env conn evs w db =
      if timeout_set
      then (if room
          then read_client_req reading conn >>= answer dropped acted sent env evs w db
          else ok ([], db, w))
      else ok ([], db, w)
