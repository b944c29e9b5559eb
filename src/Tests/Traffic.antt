-- ===== src/Tests/Traffic.antt =====
-- Runs of the theorems on a whole request, from its bytes to the table of users.
use bsle.Prelude.{
  sym, ◌∙◌, Mem, Bool-cases, inl, inr, eq_bytes→eq, some_injective, ℕ, ◌≡◌, ◌≢◌, refl, true, false,
  some, [], ◌∷◌, ◌++◌, arith, Bytes, codes, ok, Lacks, eq_bytes,
}
use mathlib.Core.List.Perm
use bsle.Server.{RetCode, UserAccount, act_user_operation, usr_act_create_user}
use bsle.Crypto.{hash_byte_array, hash_hash_t_match, hash_compare}
use bsle.Utils.{le_bytes, be_bytes, swap_byte_order}
use bsle.Utils.Order.{swap_byte_order-be_bytes}
use bsle.Wire.{UserPayload, user_payload, WirePayload, set_resp}
use bsle.Db.{Db, db_create_user, db_authenticate_user}
use bsle.Db.Files.{db_update_db}
use bsle.Db.Users.{account}
use bsle.Db.{accounts_of}
use bsle.Db.Codec.{magic_bytes, db_bytes}
use bsle.Db.Codec.Writer.{rows}
use bsle.Sock.Serve.Bounds.{Reach-db_bytes}
use bsle.Ctrl.{check_session}
use bsle.Ctrl.Action.{Env, ctrl_parse_action}
use bsle.Sock.{Conn, closed}
use bsle.Sock.Stream.{arrive}
use bsle.Sock.Read.{request, read_client_req}
use bsle.Sock.Read.Encode.{wire_bytes, IsRequest}
use bsle.Sock.Read.RoundTrip.{read_client_req-wire_bytes}
use bsle.Sock.Write.{write_response}
use bsle.Sock.Serve.{serve_client}
use bsle.Db.Registered.{account-IsRegistered}
use bsle.Sock.Serve.Reach.{
  Authorized, AllSized, State, Step, Reach, connection, here, next, IsSafe, serve_client-Authorized,
  Reach-IsSafe,
}
use bsle.Sock.Listen.{server_listen}
use bsle.Sock.Start.{
  interrupt, deliver, failed, connected, in_turn, Client, Setup, thread_count, Pool, start_server,
}
use bsle.Sock.Start.Runs.{start_server-IsSafe}
use bsle.Tests.World.{base, roomy, empty_db}

-- A number whose bytes tell the two orders apart.
abbrev counted : ℕ
counted = 0x0102030405060708

swap_byte_order-be_bytes_example : le_bytes 8 (swap_byte_order counted) ≡ be_bytes 8 counted
swap_byte_order-be_bytes_example = swap_byte_order-be_bytes counted (omega arith)

abbrev name : Bytes
name = codes "alice"

abbrev passwd : Bytes
passwd = codes "secret"

abbrev new_user : UserPayload
new_user = record {
  user_flag = usr_act_create_user;
  user_perm = 2;
  username_len = 3;
  username = some (codes "bob");
  passwd_len = 6;
  passwd = some passwd;
}

-- The request of alice, in her session 9, to make the user bob.
abbrev wire : WirePayload
wire = record {
  opt_code = act_user_operation;
  user_flag = 0;
  username_len = 5;
  passwd_len = 6;
  session_id = 9;
  username = some name;
  passwd = some passwd;
  payload_len = 15;
  payload = user_payload new_user;
}

not_empty : {c : ℕ} {s : Bytes} → c ∷ s ≢ []
not_empty e = cc

name_no_nul : Lacks 0 name
name_no_nul = (omega arith, (omega arith, (omega arith, (omega arith, (omega arith, tt)))))

bob_no_nul : Lacks 0 (codes "bob")
bob_no_nul = (omega arith, (omega arith, (omega arith, tt)))

passwd_no_nul : Lacks 0 passwd
passwd_no_nul =
    (omega arith, (omega arith, (omega arith, (omega arith, (omega arith, (omega arith, tt))))))

wire-IsRequest : IsRequest wire
wire-IsRequest = record {
  opt_code_fits = omega arith;
  user_flag_fits = omega arith;
  session_id_fits = omega arith;
  payload_len_fits = omega arith;
  named = (refl, not_empty, name_no_nul, omega arith);
  secret = (refl, not_empty, passwd_no_nul, omega arith);
  loaded = (
    refl,
    omega arith,
    omega arith,
    (refl, not_empty, bob_no_nul, omega arith),
    ((refl, not_empty, passwd_no_nul, omega arith), refl),
  );
}

-- The connection on which the request arrives, and is then closed.
abbrev conn : Conn
conn = arrive (wire_bytes wire) (closed ∷ [])

read_client_req-wire_bytes_example : read_client_req roomy conn ≡ ok (request wire)
read_client_req-wire_bytes_example =
    read_client_req-wire_bytes roomy wire (closed ∷ []) (λ i. refl) wire-IsRequest

read_wire : read_client_req roomy conn ≡ ok (request wire)
read_wire = read_client_req-wire_bytes roomy wire (closed ∷ []) (λ i. refl) wire-IsRequest

abbrev env : Env base
env = record { fuel = 2; rand = λ i. 1; now = 100; timeout = 60 }

abbrev admin : UserAccount
admin = account base (codes "admin") (codes "password") 3

abbrev alice : UserAccount
alice = account base name passwd 2

abbrev bob : UserAccount
bob = account base (codes "bob") passwd 2

-- An administrator and alice, who may write, with her session.
abbrev before : Db base
before = record empty_db {
  users_htable = base.users.set (base.users.set base.users.create (codes "admin") admin) name alice;
  sesh_htable = base.sessions.set base.sessions.create 9 (some 50);
}

-- With bob, and her session renewed.
abbrev after : Db base
after = record empty_db {
  users_htable = base.users.set before.users_htable (codes "bob") bob;
  sesh_htable = base.sessions.set before.sesh_htable 9 (some 100);
}

bob_made :
    ctrl_parse_action base roomy env [] before wire
    ≡ ok (some ((set_resp RetCode.op_success, after, []), 9))
unfolding ctrl_parse_action db_authenticate_user hash_hash_t_match hash_compare hash_byte_array
    check_session db_create_user db_update_db
bob_made = refl

-- Memory that has run out, as it is for the response.
abbrev spent : Mem
spent i = false

unsent : write_response spent [] 9 (set_resp RetCode.op_success) ≡ ok ([], false, [])
unfolding write_response
unsent = refl

bob_served :
    serve_client base true true roomy roomy roomy spent env conn [] [] before ≡ ok ([], after, [])
unfolding serve_client
bob_served = rw read_wire (rw bob_made (rw unsent refl))

abbrev start : State base
start = record { db = before; world = [] }

abbrev end : State base
end = record { db = after; world = [] }

served-Step : Step base start end
served-Step = connection true true roomy roomy roomy spent env conn [] [] bob_served

start-IsSafe : IsSafe base 3 start
start-IsSafe k a found = elim (Bool-cases (eq_bytes name k)) [
  | inl same ↦ rw (← eq_bytes→eq name k same) (
      rw (← some_injective (rw same at found))
        (account-IsRegistered base 3 name passwd 2 (omega arith)))
  | inr other ↦ elim (Bool-cases (eq_bytes (codes "admin") k)) [
    | inl same ↦ rw (← eq_bytes→eq (codes "admin") k same) (
        rw (← some_injective (rw same at (rw other at found)))
          (account-IsRegistered base 3 (codes "admin") (codes "password") 3 (omega arith)))
    | inr absent ↦ cc (rw absent at (rw other at found))
  ]
]

Reach-IsSafe_example : IsSafe base 3 end
Reach-IsSafe_example = Reach-IsSafe base 3 start-IsSafe (next here served-Step)

Reach-db_bytes_example :
    db_bytes (accounts_of base after.users_htable)
    ≡ ok (magic_bytes ++ rows (accounts_of base after.users_htable))
Reach-db_bytes_example =
    Reach-db_bytes base 3 {s' = end} (omega arith) start-IsSafe (next here served-Step)

before-AllSized : AllSized base before.users_htable
before-AllSized k a found = let known = start-IsSafe k a found in known.sized ∙ sym known.full

serve_client-Authorized_example : Authorized base roomy conn before.users_htable after.users_htable
serve_client-Authorized_example =
    serve_client-Authorized base true true roomy roomy roomy spent env conn [] [] before
      before-AllSized bob_served

-- The same connection, as a job of the server.
abbrev client : Client
client = record {
  timeout_set = true;
  room = true;
  reading = roomy;
  dropped = roomy;
  acting = roomy;
  sending = spent;
  fuel = 2;
  rand = λ i. 1;
  now = 100;
  conn = conn;
  writes = [];
}

abbrev setup : Setup
setup = record {
  getaddrinfo = λ port. some (
      record { addrlen = 16; socket = some 3; reusable = true; bound = true; listens = true } ∷ []);
  processors = some 1;
  handles_interrupt = true;
  handles_pipe = true;
  early = [];
  rounds =
      record { signals = []; during = []; accepted = connected 5 client; room = true }
      ∷ record { signals = interrupt ∷ []; during = []; accepted = failed; room = true }
      ∷ [];
}

abbrev pool : Pool
pool = record {
  makes = λ threads. true;
  perform = λ threads work jobs s. in_turn work jobs s;
  alone = λ work jobs s. (jobs, Perm.refl jobs, refl);
}

bob_started : start_server base setup pool before 4000 60 [] ≡ ok ((after, []), [])
unfolding start_server server_listen thread_count deliver in_turn
bob_started = rw bob_served refl

bob-IsSafe : Reach base start end × IsSafe base 3 end
unfolding thread_count
bob-IsSafe = start_server-IsSafe base 3 setup pool before 4000 60 [] refl start-IsSafe bob_started
