-- ===== src/Main/Guarded.antt =====
-- When main of src/server/server_main.c runs the server.
use bsle.Prelude.{
  ℕ, ◌≡◌, ◌∙◌, ap, refl, Bool, Option, none, some, List, Bytes, ok, ◌>>=◌, bind_ok, Mem,
}
use bsle.Args.{Opt, Args, args_parse}
use bsle.Args.Parsed.{IsParsed, args_parse-IsParsed}
use bsle.Db.{Base, Db, db_shutdown}
use bsle.Db.Init.{db_init}
use bsle.Db.Init.Started.{IsStarted, db_init-IsStarted}
use bsle.Sock.Start.{Setup, Pool, start_server}
use bsle.Main.{success, run_server, open_home, with_args, main}

module _ (base : Base) where
  open base use {os}

  -- The server ran: with which arguments, on which database, and what it left was written.
  pub record HasServed (fuel : ℕ) (parsing shutdown : Mem) (setup : Setup) (pool : Pool)
      (w : os.World) (opts : List Opt) (left : Bool) (w' : os.World) : Type 0 where
    pub args : Args
    pub home : Bytes
    pub db : Db base
    pub before : os.World
    pub db' : Db base
    pub after : os.World
    pub sockets : List ℕ
    pub parsed : IsParsed os parsing w opts left args
    pub lies : args.home_directory ≡ some home
    pub started : IsStarted base fuel home db before
    pub served :
        start_server base setup pool db args.port args.timeout before ≡ ok ((db', after), sockets)
    pub written : db_shutdown base shutdown after (some db') ≡ ok w'

  run_server-success :
      (shutdown : Mem) (setup : Setup) (pool : Pool) (args : Args) (r : Option (Db base) × os.World)
      {w' : os.World}
      → run_server base shutdown setup pool args r ≡ ok (success, w')
      → (db : Db base) × (db' : Db base) × (after : os.World) × (sockets : List ℕ) × (r.0 ≡ some db)
        × (start_server base setup pool db args.port args.timeout r.1 ≡ ok ((db', after), sockets))
        × (db_shutdown base shutdown after (some db') ≡ ok w')
  unfolding run_server
  run_server-success shutdown setup pool args (none, w) e = cc
  run_server-success shutdown setup pool args (some db, w) e =
      let (r, served, e1) =
        bind_ok (start_server base setup pool db args.port args.timeout w)
          (λ r. db_shutdown base shutdown r.0.1 (some r.0.0) >>= (λ w'. ok (success, w'))) e in
      let (w1, written, e2) =
        bind_ok (db_shutdown base shutdown r.0.1 (some r.0.0)) (λ w'. ok (success, w')) e1 in
      (db, r.0.0, r.0.1, r.1, refl, served, cc)

  -- If `main` returns 0, then `args_parse` accepted the arguments, `db_init` returned a database that
  -- its files vouch for, `start_server` ran on that database with that port and timeout and returned,
  -- and what it left was handed to `db_shutdown`, which gives the files at the end.
  pub main-HasServed :
      (fuel : ℕ) (parsing init shutdown : Mem) (setup : Setup) (pool : Pool) (w : os.World)
      (argc : ℕ) (opts : List Opt) (left : Bool) {w' : os.World}
      → main base fuel parsing init shutdown setup pool w argc opts left ≡ ok (success, w')
      → HasServed fuel parsing shutdown setup pool w opts left w'
  unfolding main with_args open_home
  main-HasServed fuel parsing init shutdown setup pool w argc opts left {w'} e =
      let (o, parse, e1) =
        bind_ok (args_parse os parsing w argc opts left)
          (with_args base fuel init shutdown setup pool w) e in
      with_parsed o parse e1
    where
      with_home :
          (args : Args) (home : Option Bytes)
          → args.home_directory ≡ home
          → args_parse os parsing w argc opts left ≡ ok (some args)
          → open_home base fuel init shutdown setup pool w args home ≡ ok (success, w')
          → HasServed fuel parsing shutdown setup pool w opts left w'
      with_home args none is parse e = cc
      with_home args (some home) is parse e =
          let (r, opened, e1) =
            bind_ok (db_init base fuel init w home) (run_server base shutdown setup pool args) e in
          let (db, db', after, sockets, got, served, written) =
            run_server-success shutdown setup pool args r e1 in
          record {
            args = args;
            home = home;
            db = db;
            before = r.1;
            db' = db';
            after = after;
            sockets = sockets;
            parsed = args_parse-IsParsed os parsing w argc opts left parse;
            lies = is;
            started =
                db_init-IsStarted base fuel init w home
                  (opened ∙ ap (λ (o : Option (Db base)). ok (o, r.1)) got);
            served = served;
            written = written;
          }

      with_parsed :
          (o : Option Args)
          → args_parse os parsing w argc opts left ≡ ok o
          → with_args base fuel init shutdown setup pool w o ≡ ok (success, w')
          → HasServed fuel parsing shutdown setup pool w opts left w'
      with_parsed none parse e = cc
      with_parsed (some args) parse e = with_home args args.home_directory refl parse e
