-- ===== src/Sock/Start.antt =====
-- start_server of src/server/server_sock.c: the loop that accepts connections, the signals that end it,
-- and the jobs that serve the connections. The thread pool is a library that is not part of the
-- repository: it is the parameter Pool, which says whether it can be made and what its threads do with
-- the jobs. Only of a pool with one thread is it known that the jobs are served one after the other.
pub mod Rounds
pub mod Runs
use bsle.Prelude.{
  ◌≡◌, ℕ, ◌%◌, Bool, true, false, ◌&&◌, Option, none, some, List, [], ◌∷◌, ◌++◌, Run, ok, stuck,
  ◌>>=◌, Mem, if◌then◌else◌,
}
use mathlib.Core.List.{Perm}
use bsle.Db.{Base, Db}
use bsle.Ctrl.Action.{Env}
use bsle.Sock.{Conn}
use bsle.Sock.Write.{WriteEvent}
use bsle.Sock.Listen.{AddrInfo, close, server_listen}
use bsle.Sock.Serve.{Served, serve_client}

-- SIGINT and SIGPIPE.
pub data Signal : Type 0 where
  interrupt broken_pipe : Signal

-- What a signal does to the flag `server_run`.
unfoldable pub signal_handler : Signal → Bool → Bool
signal_handler broken_pipe server_run = server_run
signal_handler interrupt server_run = false

-- The signals that arrive in turn.
unfoldable pub deliver : List Signal → Bool → Bool
unfolding signal_handler
deliver [] server_run = server_run
deliver (s ∷ signals) server_run = deliver signals (signal_handler s server_run)

-- `atomic_flag_test_and_set`: the flag as it was, and as it is.
abbrev pub test_and_set : Bool → Bool × Bool
test_and_set server_run = (server_run, true)

-- What the serving of a connection finds: the arguments of `serve_client` but the database and the
-- files, with the numbers that `rand` gives, the time, and the fuel of the search for a session.
pub record Client : Type 0 where
  pub timeout_set : Bool
  pub room : Bool
  pub reading : Mem
  pub dropped : Mem
  pub acting : Mem
  pub sending : Mem
  pub fuel : ℕ
  pub rand : ℕ → ℕ
  pub now : ℕ
  pub conn : Conn
  pub writes : List WriteEvent

-- `worker_payload_t`, with who is at the other end of `fd`.
pub record Job : Type 0 where
  pub fd : ℕ
  pub timeout : ℕ
  pub client : Client

-- What `accept` does: it returns -1, it returns a socket, or it never returns.
pub data Accept : Type 0 where
  failed blocked : Accept
  connected : ℕ → Client → Accept

abbrev pub is_blocked : Accept → Bool
is_blocked blocked = true
is_blocked _ = false

-- One round of the loop: the signals up to the test of the flag, those from the test until `accept` has
-- returned, what `accept` does, and whether there is memory for the job. A signal behind the test does
-- not keep the loop from calling `accept`.
pub record Round : Type 0 where
  pub signals : List Signal
  pub during : List Signal
  pub accepted : Accept
  pub room : Bool

-- The job of a round. A connection with no memory for it is closed.
pub job_of : ℕ → Accept → Bool → List Job
job_of timeout failed room = []
job_of timeout blocked room = []
job_of timeout (connected fd client) false = []
job_of timeout (connected fd client) true =
    record { fd = fd; timeout = timeout; client = client } ∷ []

-- The loop, with the jobs that were enqueued; where the rounds end or `accept` blocks, the server waits.
pub accept_loop : ℕ → List Round → Bool → List Job → Run (List Job)
unfolding job_of deliver
accept_loop timeout [] server_run jobs = stuck
accept_loop timeout (r ∷ rounds) server_run jobs =
    let (run, server_run') = test_and_set (deliver r.signals server_run) in
    let next =
      accept_loop timeout rounds (deliver r.during server_run')
        (jobs ++ job_of timeout r.accepted r.room) in
    if run then (if is_blocked r.accepted then stuck else next) else ok jobs

-- The calls on which the start depends.
pub record Setup : Type 0 where
  pub getaddrinfo : AddrInfo
  -- `sysconf`, whose -1 is `none`
  pub processors : Option ℕ
  -- the two calls of `sigaction`
  pub handles_interrupt : Bool
  pub handles_pipe : Bool
  -- signals before the flag is set for the first time, and the rounds from then on
  pub early : List Signal
  pub rounds : List Round

-- The number of processors is cut to a byte.
unfoldable pub thread_count : Option ℕ → ℕ
thread_count none = 255
thread_count (some n) = n % 256

-- Jobs that are done one after the other.
unfoldable pub in_turn : {S : Type 0} → (Job → S → Run S) → List Job → S → Run S
in_turn work [] s = ok s
in_turn work (j ∷ jobs) s = work j s >>= λ s'. in_turn work jobs s'

-- `thpool_init`: whether there is a pool of so many threads. `thpool_enqueue_job` and `thpool_wait`:
-- what is left when its threads have done the jobs. A single thread does each job once, in some order.
pub record Pool : Type 1 where
  pub makes : ℕ → Bool
  pub perform : {S : Type 0} → ℕ → (Job → S → Run S) → List Job → S → Run S
  pub alone :
      {S : Type 0} (work : Job → S → Run S) (jobs : List Job) (s : S)
      → (queue : List Job) × Perm queue jobs × (perform 1 work jobs s ≡ in_turn work queue s)

module _ (base : Base) where
  open base use {os}

  abbrev pub env_of : Job → Env base
  env_of j = record {
    fuel = j.client.fuel;
    rand = j.client.rand;
    now = j.client.now;
    timeout = j.timeout;
  }

  -- `serve_client` as the callback of a job, and what it leaves.
  pub serve_job : Job → Db base × os.World → Run (Db base × os.World)
  serve_job j (db, w) =
      let c = j.client in
      serve_client base c.timeout_set c.room c.reading c.dropped c.acting c.sending (env_of j)
        c.conn c.writes w db
      >>= λ served. ok (served.1, served.2)

  -- The database, the files, and the sockets that are open at the end, but those of the clients.
  abbrev pub Stopped : Type 0
  Stopped = (Db base × os.World) × List ℕ

  -- With the signals handled: the flag is set whatever it was, the loop runs, and the jobs are waited for.
  run_loop : Setup → Pool → ℕ → Db base → ℕ → os.World → List ℕ → Run Stopped
  unfolding accept_loop serve_job
  run_loop s pool fd db timeout w sockets = do
    jobs ← accept_loop timeout s.rounds (test_and_set (deliver s.early false)).1 []
    left ← pool.perform (thread_count s.processors) serve_job jobs (db, w)
    ok (left, close fd sockets)

  -- With the socket.
  listening_on : Setup → Pool → Db base → ℕ → os.World → Option ℕ × Option ℕ × List ℕ → Run Stopped
  unfolding run_loop
  listening_on s pool db timeout w (none, len, sockets) = ok ((db, w), sockets)
  listening_on s pool db timeout w (some fd, len, sockets) =
      if pool.makes (thread_count s.processors) && s.handles_interrupt && s.handles_pipe
      then run_loop s pool fd db timeout w sockets
      else ok ((db, w), close fd sockets)

  -- Every way out behind `server_listen` closes the socket.
  unfoldable pub start_server : Setup → Pool → Db base → ℕ → ℕ → os.World → Run Stopped
  unfolding listening_on
  start_server s pool db port_num timeout w =
      listening_on s pool db timeout w (server_listen s.getaddrinfo port_num false)
