-- ===== src/Main.antt =====
-- src/server/server_main.c: the arguments, the database, the server, and the shutdown.
pub mod Guarded
use bsle.Prelude.{ℕ, Bool, Option, none, some, List, Bytes, Run, ok, ◌>>=◌, Mem}
use bsle.Os.{Os}
use bsle.Args.{Opt, Args, args_parse}
use bsle.Db.{Base, Db, db_shutdown}
use bsle.Db.Init.{db_init}
use bsle.Sock.Start.{Setup, Pool, start_server}

-- What `main` returns: 0, or -1.
pub data Exit : Type 0 where
  success failure : Exit

module _ (base : Base) where
  open base use {os}

  -- The server runs, and then the file is written.
  run_server : Mem → Setup → Pool → Args → Option (Db base) × os.World → Run (Exit × os.World)
  run_server mem setup pool args (none, w) = ok (failure, w)
  run_server mem setup pool args (some db, w) = do
    (left, sockets) ← start_server base setup pool db args.port args.timeout w
    w' ← db_shutdown base mem left.1 (some left.0)
    ok (success, w')

  -- `args_parse` returns arguments only with a home directory.
  open_home : ℕ → Mem → Mem → Setup → Pool → os.World → Args → Option Bytes → Run (Exit × os.World)
  unfolding run_server
  open_home fuel init shutdown setup pool w args none = ok (failure, w)
  open_home fuel init shutdown setup pool w args (some home) =
      db_init base fuel init w home >>= run_server shutdown setup pool args

  with_args : ℕ → Mem → Mem → Setup → Pool → os.World → Option Args → Run (Exit × os.World)
  unfolding open_home
  with_args fuel init shutdown setup pool w none = ok (failure, w)
  with_args fuel init shutdown setup pool w (some args) =
      open_home fuel init shutdown setup pool w args args.home_directory

  -- The allocations of the three parts are given apart; the fuel is that of `populate_htable`.
  unfoldable pub main :
      ℕ → Mem → Mem → Mem → Setup → Pool → os.World → ℕ → List Opt → Bool → Run (Exit × os.World)
  unfolding with_args
  main fuel parsing init shutdown setup pool w argc opts left =
      args_parse os parsing w argc opts left >>= with_args fuel init shutdown setup pool w
