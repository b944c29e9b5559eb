-- ===== src/Args/Parsed.antt =====
-- args_parse of src/server/server_args.c.
use bsle.Prelude.{
  ℕ, ◌≤◌, ◌≡◌, ◌∙◌, ap, refl, true, false, Bool, Bool-cases, inl, inr, Option, Option-cases, none,
  some, some_injective, List, Bytes, ok, bind_ok, Mem, later, ◌==◌, arith,
}
use bsle.Server.{min_port, max_port, default_port, default_timeout}
use bsle.Os.{Os}
use bsle.Args.{Opt, Args, Given, parse_loop, finish_args, args_parse}
use bsle.Args.Numbers.{get_port_range, get_timeout_range}
use bsle.Args.Options.{Chosen, kept, chosen, GivesPort, GivesTimeout, IsTaken, parse_loop-IsTaken}

-- What `args_parse` starts with.
abbrev pub defaults : Args
defaults = record { port = default_port; timeout = default_timeout; home_directory = none }

abbrev pub nothing : Given
nothing = record { b_port = false; b_timeout = false; b_home_dir = false }

port-range :
    (os : Os) (mem : Mem) (w : os.World) {port : ℕ} {l : List Bytes}
    → Chosen (GivesPort os mem w) false default_port port l
    → (min_port ≤ port) × (port ≤ max_port)
port-range os mem w (kept same) = (omega (arith, same), omega (arith, same))
port-range os mem w {port} (chosen a first (gives, real)) = elim (get_port_range a) [
  | inl none_given ↦ absurd (real (gives ∙ none_given))
  | inr (low, high) ↦ (omega (arith, low, gives), omega (arith, high, gives))
]

timeout-range :
    (os : Os) (mem : Mem) (w : os.World) {timeout : ℕ} {l : List Bytes}
    → Chosen (GivesTimeout os mem w) false default_timeout timeout l
    → (1 ≤ timeout) × (timeout ≤ 255)
timeout-range os mem w (kept same) = (omega (arith, same), omega (arith, same))
timeout-range os mem w (chosen a first (gives, real)) =
    (omega (arith, real), omega (arith, gives, get_timeout_range a))

module _ (os : Os) (mem : Mem) (w : os.World) where
  -- Arguments with which the server can start.
  pub record IsParsed (opts : List Opt) (left : Bool) (args : Args) : Type 0 where
    pub nothing_left : left ≡ false
    pub taken : IsTaken os (later 1 mem) w opts defaults nothing args
    pub port : (min_port ≤ args.port) × (args.port ≤ max_port)
    pub timeout : (1 ≤ args.timeout) × (args.timeout ≤ 255)
    pub home : (path : Bytes) × (args.home_directory ≡ some path)

  finished :
      (left : Bool) (parsed : Option Args) {args : Args}
      → finish_args os left parsed ≡ some args
      → (left ≡ false) × (parsed ≡ some args) × ((path : Bytes) × (args.home_directory ≡ some path))
  unfolding finish_args
  finished left none e = cc
  finished true (some given) e = cc
  finished false (some given) {args} e = elim (Option-cases given.home_directory) [
    | inl absent ↦ cc (rw (absent, finish_args) at e)
    | inr (path, is) ↦
        let same : given ≡ args = some_injective (rw (is, finish_args) at e) in
        (refl, ap (λ (a : Args). some a) same, (path, rw (← same) is))
  ]

  -- If `args_parse` returns arguments, then no option was given twice and nothing was left behind
  -- them, the port is the default or that of `-p` and lies from 1025 to 65535, the timeout is the
  -- default or that of `-t` and lies from 1 to 255, and the home directory is the one of `-d`, which
  -- passed `get_home_dir`.
  pub args_parse-IsParsed :
      (argc : ℕ) (opts : List Opt) (left : Bool) {args : Args}
      → args_parse os mem w argc opts left ≡ ok (some args)
      → IsParsed opts left args
  unfolding args_parse
  args_parse-IsParsed argc opts left e = elim (Bool-cases (argc == 1)) [
    | inl alone ↦ cc (rw alone at e)
    | inr more ↦ elim (Bool-cases (mem 0)) [
      | inr m ↦ cc (rw m at (rw more at e))
      | inl m ↦
          let (parsed, loop, e1) =
            bind_ok (parse_loop os (later 1 mem) w opts defaults nothing)
              (λ parsed. ok (finish_args os left parsed)) (rw m at (rw more at e)) in
          let (empty, is, home) = finished left parsed cc in
          let taken =
            parse_loop-IsTaken os (later 1 mem) w opts defaults nothing
              (loop ∙ ap (λ (o : Option Args). ok o) is) in
          record {
            nothing_left = empty;
            taken = taken;
            port = port-range os (later 1 mem) w taken.port;
            timeout = timeout-range os (later 1 mem) w taken.timeout;
            home = home;
          }
    ]
  ]
