-- ===== src/Tests/Startup.antt =====
-- Runs of the theorems on the start of the server, on a disk with several files.
use bsle.Prelude.{
  ◌<◌, ◌≡◌, refl, Bool, Mem, true, false, some, List, [], ◌∷◌, ◌++◌, arith, Bytes, codes, length,
  take_all, ok, plenty,
}
use mathlib.Core.List.Perm
use bsle.Args.{
  Opt, opt_port, opt_timeout, opt_home, Args, get_port, get_timeout, args_parse, take_opt,
  str_to_long, exceeds, below, magnitude, get_home_dir,
}
use bsle.Args.Numbers.{get_port-print_dec, get_timeout-print_dec}
use bsle.Args.Parsed.{IsParsed, args_parse-IsParsed}
use bsle.Decimal.{print_dec, is_digit, read_digits}
use bsle.Crypto.{skip_space}
use bsle.Db.{db_shutdown}
use bsle.Db.Files.{db_update_db}
use bsle.Sock.Listen.{Candidate, server_listen}
use bsle.Sock.Listen.Opened.{Outcome, server_listen-Outcome}
use bsle.Sock.Serve.{serve_client}
use bsle.Sock.Start.{
  interrupt, broken_pipe, deliver, failed, blocked, connected, in_turn, Client, Round, Setup,
  thread_count, Pool, start_server,
}
use bsle.Server.{UserAccount}
use bsle.Main.{success, main}
use bsle.Main.Guarded.{HasServed, main-HasServed}
use bsle.Paths.{f_set_home_dir, join_and_resolve_paths, join_paths}
use bsle.FileApi.Read.Holds.{IsOnDisk}
use bsle.Db.{Db, accounts_of}
use bsle.Db.Codec.{magic_bytes}
use bsle.Db.Init.{db_init}
use bsle.Db.Init.Restart.{IsThere, db_init_restart}
use bsle.Db.Init.Started.{IsStarted, db_init-IsStarted}
use bsle.FileApi.Listing.{db_dir, db_name, db_hash}
use bsle.Db.Codec.Writer.{rows}
use bsle.Db.Sound.{db_bytes-IsSound}
use bsle.Tests.Accounts.{alice_db, alice-IsSound}
use bsle.Tests.Disk.{Disk, files, base}
use bsle.Tests.World
use bsle.Tests.World.{disk, sha, home}

abbrev pub db_path : Bytes
db_path = codes "/.cape/.cape.db"

abbrev pub hash_path : Bytes
hash_path = codes "/.cape/.cape.hash"

-- The text of the database that holds one account.
abbrev pub text : Bytes
text = magic_bytes ++ rows (accounts_of World.base alice_db.users_htable)

-- The files that the server leaves.
abbrev stored : Disk
stored = (home ++ db_path, text) ∷ (home ++ hash_path, magic_bytes ++ sha.digest text) ∷ []

dir-IsThere : IsThere base stored home db_dir (codes "/.cape")
dir-IsThere = record { fits = omega arith; real = refl }

name-IsThere : IsThere base stored home db_name db_path
name-IsThere = record { fits = omega arith; real = refl }

hash-IsThere : IsThere base stored home db_hash hash_path
hash-IsThere = record { fits = omega arith; real = refl }

text-IsOnDisk : IsOnDisk files stored (home ++ db_path) text stored
text-IsOnDisk = record {
  listed = length text;
  permissions = 438;
  regular = refl;
  opens = refl;
  sized = refl;
  holds = take_all (length text) text (omega arith);
}

hash-IsOnDisk : IsOnDisk files stored (home ++ hash_path) (magic_bytes ++ sha.digest text) stored
hash-IsOnDisk = record {
  listed = 36;
  permissions = 438;
  regular = refl;
  opens = refl;
  sized = refl;
  holds = refl;
}

pub rounds : length (accounts_of base alice_db.users_htable) < 2
unfolding accounts_of
rounds = omega arith

-- The start that the theorem on restarts gives.
again :
    (db : Db base) × (db_init base 2 plenty stored home ≡ ok (some db, stored))
    × ((k : Bytes) → base.users.get db.users_htable k ≡ base.users.get alice_db.users_htable k)
unfolding accounts_of
again =
    db_init_restart base [] 2 stored stored stored home (codes "/.cape") db_path hash_path text
      alice_db.users_htable refl alice-IsSound rounds
      (db_bytes-IsSound World.base alice_db.users_htable alice-IsSound) dir-IsThere name-IsThere
      hash-IsThere text-IsOnDisk hash-IsOnDisk

db_init-IsStarted_example : IsStarted base 2 home again.0 stored
db_init-IsStarted_example = db_init-IsStarted base 2 plenty stored home again.1

get_port-print_dec_example : get_port (print_dec 4000) ≡ 4000
get_port-print_dec_example = get_port-print_dec 4000 (omega arith)

get_timeout-print_dec_example : get_timeout (print_dec 300) ≡ 44
get_timeout-print_dec_example = get_timeout-print_dec 300 (omega arith)

-- `-p 4000 -t 30 -d /srv`
abbrev opts : List Opt
opts = opt_port (codes "4000") ∷ opt_timeout (codes "30") ∷ opt_home home ∷ []

abbrev args : Args
args = record { port = 4000; timeout = 30; home_directory = some home }

parsed : args_parse files plenty stored 7 opts false ≡ ok (some args)
unfolding args_parse take_opt get_port str_to_long exceeds below magnitude get_timeout get_home_dir
    f_set_home_dir join_and_resolve_paths join_paths skip_space is_digit read_digits
parsed = refl

args_parse-IsParsed_example : IsParsed files plenty stored opts false args
args_parse-IsParsed_example = args_parse-IsParsed files plenty stored 7 opts false parsed

-- A client that sends nothing, and whose timeout cannot be set.
abbrev silent : Client
silent = record {
  timeout_set = false;
  room = true;
  reading = plenty;
  dropped = plenty;
  acting = plenty;
  sending = plenty;
  fuel = 2;
  rand = λ i. 1;
  now = 100;
  conn = [];
  writes = [];
}

-- The first record cannot be bound, the second listens.
abbrev taken_port : Candidate
taken_port = record {
  addrlen = 28;
  socket = some 4;
  reusable = true;
  bound = false;
  listens = false;
}

abbrev free_port : Candidate
free_port = record { addrlen = 16; socket = some 3; reusable = true; bound = true; listens = true }

abbrev candidates : List Candidate
candidates = taken_port ∷ free_port ∷ []

server_listen-Outcome_example :
    Outcome candidates (server_listen (λ port. some candidates) 4000 true)
server_listen-Outcome_example =
    server_listen-Outcome (λ port. some candidates) 4000 true candidates refl

-- A connection, then a broken pipe, and an interrupt while the server waits for another connection.
abbrev rounds_taken : List Round
rounds_taken =
    record { signals = []; during = []; accepted = connected 5 silent; room = true }
    ∷ record { signals = broken_pipe ∷ []; during = interrupt ∷ []; accepted = failed; room = true }
    ∷ record { signals = []; during = []; accepted = blocked; room = true }
    ∷ []

abbrev setup : Setup
setup = record {
  getaddrinfo = λ port. some candidates;
  processors = some 1;
  handles_interrupt = true;
  handles_pipe = true;
  early = [];
  rounds = rounds_taken;
}

-- A pool that takes the jobs as they come.
abbrev pool : Pool
pool = record {
  makes = λ threads. true;
  perform = λ threads work jobs s. in_turn work jobs s;
  alone = λ work jobs s. (jobs, Perm.refl jobs, refl);
}

served : (db : Db base) (w : Disk) → start_server base setup pool db 4000 30 w ≡ ok ((db, w), [])
unfolding start_server server_listen serve_client thread_count deliver in_turn
served db w = refl

-- Memory that has run out, so that nothing is written at the end.
abbrev spent : Mem
spent i = false

unwritten :
    (w : Disk) (dir : Bytes) (debug : Bool) (users : List UserAccount)
    → db_update_db files sha spent w dir debug users ≡ ok w
unfolding db_update_db
unwritten w dir true users = refl
unwritten w dir false users = refl

shut_down : (db : Db base) (w : Disk) → db_shutdown base spent w (some db) ≡ ok w
unfolding db_shutdown
shut_down db w = unwritten w db.home_dir db.debug (accounts_of base db.users_htable)

ran : main base 2 plenty plenty spent setup pool stored 7 opts false ≡ ok (success, stored)
unfolding main
ran = rw parsed (rw again.1 (rw (served again.0 stored) (rw (shut_down again.0 stored) refl)))

main_served : HasServed base 2 plenty spent setup pool stored opts false stored
main_served = main-HasServed base 2 plenty plenty spent setup pool stored 7 opts false ran
