-- ===== src/Sock/Start/Runs.antt =====
-- What start_server of src/server/server_sock.c leaves: the connections that it took are steps of the
-- server.
use bsle.Prelude.{
  sym, ℕ, ◌≡◌, ◌∙◌, subst, bind_ok, ◌&&◌, true, false, Bool-cases, inl, inr, Option, none, some,
  List, [], ◌∷◌, ok, ◌>>=◌,
}
use mathlib.Core.List.{Perm}
use bsle.Db.{Base, Db}
use bsle.Sock.Listen.{close, server_listen}
use bsle.Sock.Serve.{serve_client}
use bsle.Sock.Serve.Reach.{State, Step, connection, Reach, here, next, IsSafe, Reach-IsSafe}
use bsle.Sock.Start.{
  Job, Setup, Pool, thread_count, accept_loop, serve_job, in_turn, env_of, run_loop, listening_on,
  start_server,
}
use bsle.Sock.Start.Rounds.{Taken, accept_loop-Taken}

module _ (base : Base) where
  open base use {os}

  abbrev pub state : Db base → os.World → State base
  state db w = record { db = db; world = w }

  serve_job-Step :
      (j : Job) (s left : Db base × os.World)
      → serve_job base j s ≡ ok left
      → Step base (state s.0 s.1) (state left.0 left.1)
  unfolding serve_job
  serve_job-Step j (db, w) left e =
      let c = j.client in
      let (served, ran, is) =
        bind_ok
          (serve_client base c.timeout_set c.room c.reading c.dropped c.acting c.sending
            (env_of base j) c.conn c.writes w db)
          (λ served. ok (served.1, served.2)) e in
      let same : (served.1, served.2) ≡ left = cc in
      subst (λ (l : Db base × os.World). Step base (state db w) (state l.0 l.1)) same
        (connection c.timeout_set c.room c.reading c.dropped c.acting c.sending (env_of base j)
          c.conn c.writes served.0 ran)

  -- Behind a run that came so far.
  in_turn-Reach :
      {s : State base} (jobs : List Job) (now left : Db base × os.World)
      → Reach base s (state now.0 now.1)
      → in_turn (serve_job base) jobs now ≡ ok left
      → Reach base s (state left.0 left.1)
  unfolding in_turn
  in_turn-Reach {s} [] now left run e =
      let is : now ≡ left = cc in
      subst (λ (l : Db base × os.World). Reach base s (state l.0 l.1)) is run
  in_turn-Reach (j ∷ jobs) now left run e =
      let (served, ran, rest) = bind_ok (serve_job base j now) (in_turn (serve_job base) jobs) e in
      in_turn-Reach jobs served left (next run (serve_job-Step j now served ran)) rest

  -- How a start that returned went: the set-up failed, or the jobs of the rounds up to the test that ended
  -- the loop were served, each once.
  pub data HasRun (s : Setup) (db : Db base) (timeout : ℕ) (w : os.World)
      : Db base × os.World → Type 0 where
    not_started : {left : Db base × os.World} → left ≡ (db, w) → HasRun s db timeout w left
    ran :
        {left : Db base × os.World} (jobs queue : List Job)
        → Taken timeout s.rounds jobs
        → Perm queue jobs
        → in_turn (serve_job base) queue (db, w) ≡ ok left
        → HasRun s db timeout w left

  run_loop-HasRun :
      (s : Setup) (pool : Pool) (fd : ℕ) (db : Db base) (timeout : ℕ) (w : os.World)
      (sockets : List ℕ) (left : Db base × os.World) (open_left : List ℕ)
      → thread_count s.processors ≡ 1
      → run_loop base s pool fd db timeout w sockets ≡ ok (left, open_left)
      → HasRun s db timeout w left
  unfolding run_loop
  run_loop-HasRun s pool fd db timeout w sockets left open_left one e =
      let work = pool.perform (thread_count s.processors) (serve_job base) in
      let (jobs, looped, e1) =
        bind_ok (accept_loop timeout s.rounds true [])
          (λ jobs. work jobs (db, w) >>= λ (l : Db base × os.World). ok (l, close fd sockets)) e in
      let (l, served, e2) = bind_ok (work jobs (db, w)) (λ l. ok (l, close fd sockets)) e1 in
      let (more, is, took) = accept_loop-Taken timeout s.rounds [] jobs looped in
      let (queue, once, same) = pool.alone (serve_job base) jobs (db, w) in
      let alone = rw one at served in ran jobs queue (rw is took) once (sym same ∙ alone ∙ cc)

  listening_on-HasRun :
      (s : Setup) (pool : Pool) (db : Db base) (timeout : ℕ) (w : os.World)
      (r : Option ℕ × Option ℕ × List ℕ) (left : Db base × os.World) (open_left : List ℕ)
      → thread_count s.processors ≡ 1
      → listening_on base s pool db timeout w r ≡ ok (left, open_left)
      → HasRun s db timeout w left
  unfolding listening_on
  listening_on-HasRun s pool db timeout w (none, len, sockets) left open_left one e =
      not_started (cc)
  listening_on-HasRun s pool db timeout w (some fd, len, sockets) left open_left one e =
      elim (Bool-cases
        (pool.makes (thread_count s.processors) && s.handles_interrupt && s.handles_pipe)) [
          | inl set ↦
              run_loop-HasRun s pool fd db timeout w sockets left open_left one (rw set at e)
          | inr unset ↦ let e' = rw unset at e in not_started (cc)
        ]

  pub start_server-HasRun :
      (s : Setup) (pool : Pool) (db : Db base) (port_num timeout : ℕ) (w : os.World)
      {left : Db base × os.World} {sockets : List ℕ}
      → thread_count s.processors ≡ 1
      → start_server base s pool db port_num timeout w ≡ ok (left, sockets)
      → HasRun s db timeout w left
  unfolding start_server
  start_server-HasRun s pool db port_num timeout w {left} {sockets} one e =
      listening_on-HasRun s pool db timeout w (server_listen s.getaddrinfo port_num false) left
        sockets one e

  -- With one thread, whatever clients and signals do: if `start_server` returns, it leaves a state that the
  -- server reaches by serving connections, so every account is still under its own name, with a hash
  -- of 32 bytes and no more permission than the highest before.
  pub start_server-IsSafe :
      (limit : ℕ) (s : Setup) (pool : Pool) (db : Db base) (port_num timeout : ℕ) (w : os.World)
      {left : Db base × os.World} {sockets : List ℕ}
      → thread_count s.processors ≡ 1
      → IsSafe base limit (state db w)
      → start_server base s pool db port_num timeout w ≡ ok (left, sockets)
      → Reach base (state db w) (state left.0 left.1) × IsSafe base limit (state left.0 left.1)
  start_server-IsSafe limit s pool db port_num timeout w {left} one safe e =
      let reached = HasRun-Reach (start_server-HasRun s pool db port_num timeout w one e) in
      (reached, Reach-IsSafe base limit safe reached)
    where
      HasRun-Reach : HasRun s db timeout w left → Reach base (state db w) (state left.0 left.1)
      HasRun-Reach (not_started is) = rw is here
      HasRun-Reach (ran jobs queue took once served) = in_turn-Reach queue (db, w) left here served
