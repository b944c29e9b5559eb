-- ===== src/Args/Options.antt =====
-- The loop over the options in args_parse of src/server/server_args.c.
use bsle.Prelude.{
  ℕ, ◌≡◌, ◌≢◌, ◌∙◌, ap, refl, true, false, Bool, Bool-cases, inl, inr, Option, none, some, List, [],
  ◌∷◌, Bytes, Run, ok, ◌>>=◌, bind_ok, Mem, ◌==◌, if◌then◌else◌, arith,
}
use bsle.Os.{Os}
use bsle.Args.{
  Opt, opt_port, opt_timeout, opt_home, opt_help, opt_unknown, Args, Given, get_port, get_timeout,
  get_home_dir, port_given, timeout_given, home_given, take_opt, parse_on, parse_loop,
}

-- The arguments of one option, in their order.
pub ports : List Opt → List Bytes
ports [] = []
ports (opt_port a ∷ l) = a ∷ ports l
ports (_ ∷ l) = ports l

pub timeouts : List Opt → List Bytes
timeouts [] = []
timeouts (opt_timeout a ∷ l) = a ∷ timeouts l
timeouts (_ ∷ l) = timeouts l

pub homes : List Opt → List Bytes
homes [] = []
homes (opt_home a ∷ l) = a ∷ homes l
homes (_ ∷ l) = homes l

-- An option that was not provided and leaves the value, or was provided once, for the first time, and
-- gives the new one.
pub data Chosen {A : Type 0} (Gives : Bytes → A → Type 0) (given : Bool) (old new : A)
    : List Bytes → Type 0 where
  kept : new ≡ old → Chosen Gives given old new []
  chosen : (a : Bytes) → given ≡ false → Gives a new → Chosen Gives given old new (a ∷ [])

-- With the option provided now, it is not provided again.
chosen_now :
    {A : Type 0} {Gives : Bytes → A → Type 0} {old now new : A} {l : List Bytes} {given : Bool}
    (a : Bytes)
    → given ≡ false
    → Gives a now
    → Chosen Gives true now new l
    → Chosen Gives given old new (a ∷ l)
chosen_now a first gives (kept same) = chosen a first (rw same gives)
chosen_now a first gives (chosen b never x) = cc

module _ (os : Os) (mem : Mem) (w : os.World) where
  abbrev pub GivesPort : Bytes → ℕ → Type 0
  GivesPort a port = (port ≡ get_port a) × (port ≢ 0)

  abbrev pub GivesTimeout : Bytes → ℕ → Type 0
  GivesTimeout a timeout = (timeout ≡ get_timeout a) × (timeout ≢ 0)

  abbrev pub GivesHome : Bytes → Option Bytes → Type 0
  GivesHome a home =
      (path : Bytes) × (home ≡ some path) × (get_home_dir os mem w a ≡ ok (some path))

  -- Each option at most once, and what it gives.
  pub record IsTaken (opts : List Opt) (args : Args) (given : Given) (final : Args) : Type 0 where
    pub port : Chosen GivesPort given.b_port args.port final.port (ports opts)
    pub timeout : Chosen GivesTimeout given.b_timeout args.timeout final.timeout (timeouts opts)
    pub home :
        Chosen GivesHome given.b_home_dir args.home_directory final.home_directory (homes opts)

  port_step :
      (args : Args) (given : Given) (b : Bool) (port : ℕ) (more : Args → Given → Run (Option Args))
      {final : Args}
      → parse_on os more (if b then none else port_given os args given port) ≡ ok (some final)
      → (b ≡ false)
        × (port ≢ 0)
        × (more (record args { port = port }) (record given { b_port = true }) ≡ ok (some final))
  unfolding parse_on port_given
  port_step args given true port more e = cc
  port_step args given false port more e = elim (Bool-cases (port == 0)) [
    | inl zero_port ↦ cc (rw zero_port at e)
    | inr real ↦ (refl, ground arith, rw real at e)
  ]

  timeout_step :
      (args : Args) (given : Given) (b : Bool) (timeout : ℕ)
      (more : Args → Given → Run (Option Args)) {final : Args}
      → parse_on os more (if b then none else timeout_given os args given timeout) ≡ ok (some final)
      → (b ≡ false)
        × (timeout ≢ 0)
        × (more (record args { timeout = timeout }) (record given { b_timeout = true })
            ≡ ok (some final))
  unfolding parse_on timeout_given
  timeout_step args given true timeout more e = cc
  timeout_step args given false timeout more e = elim (Bool-cases (timeout == 0)) [
    | inl zero_timeout ↦ cc (rw zero_timeout at e)
    | inr real ↦ (refl, ground arith, rw real at e)
  ]

  home_step :
      (args : Args) (given : Given) (dir : Option Bytes) (more : Args → Given → Run (Option Args))
      {final : Args}
      → parse_on os more (home_given os args given dir) ≡ ok (some final)
      → (path : Bytes) × (dir ≡ some path)
        × (more (record args { home_directory = some path }) (record given { b_home_dir = true })
            ≡ ok (some final))
  unfolding parse_on home_given
  home_step args given none more e = cc
  home_step args given (some path) more e = (path, refl, e)

  pub parse_loop-IsTaken :
      (opts : List Opt) (args : Args) (given : Given) {final : Args}
      → parse_loop os mem w opts args given ≡ ok (some final)
      → IsTaken opts args given final
  unfolding parse_loop take_opt parse_on ports timeouts homes
  parse_loop-IsTaken [] args given e = record {
    port = kept (ground (arith, e));
    timeout = kept (ground (arith, e));
    home = kept (ground (arith, e));
  }
  parse_loop-IsTaken (opt_port a ∷ rest) args given e =
      let (first, real, e1) =
        port_step args given given.b_port (get_port a) (parse_loop os mem w rest) e in
      let t = parse_loop-IsTaken rest _ _ e1 in
      record { port = chosen_now a first (refl, real) t.port; timeout = t.timeout; home = t.home }
  parse_loop-IsTaken (opt_timeout a ∷ rest) args given e =
      let (first, real, e1) =
        timeout_step args given given.b_timeout (get_timeout a) (parse_loop os mem w rest) e in
      let t = parse_loop-IsTaken rest _ _ e1 in
      record { port = t.port; timeout = chosen_now a first (refl, real) t.timeout; home = t.home }
  parse_loop-IsTaken (opt_home a ∷ rest) args given e = elim (Bool-cases given.b_home_dir) [
    | inl again ↦ cc (rw again at e)
    | inr first ↦
        let more = parse_loop os mem w rest in
        let (taken, step, e1) =
          bind_ok (get_home_dir os mem w a >>= (λ path. ok (home_given os args given path)))
            (λ taken. parse_on os more taken) (rw first at e) in
        let (dir, got, e2) =
          bind_ok (get_home_dir os mem w a) (λ path. ok (home_given os args given path)) step in
        let (path, is, e3) = home_step args given dir more (cc) in
        let t = parse_loop-IsTaken rest _ _ e3 in
        record {
          port = t.port;
          timeout = t.timeout;
          home = chosen_now a first (path, refl, got ∙ ap ok is) t.home;
        }
  ]
  parse_loop-IsTaken (opt_help ∷ rest) args given e = cc
  parse_loop-IsTaken (opt_unknown ∷ rest) args given e = cc
