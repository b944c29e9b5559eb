-- ===== src/Args.antt =====
-- src/server/server_args.c: the command line.
-- `getopt` is part of the C library: what it returns in turn is an argument, and so is whether it
-- leaves something behind the options. An argument is a byte string with no terminator.
pub mod Numbers
pub mod Options
pub mod Parsed
use bsle.Prelude.{
  ℕ, zero, suc, ◌+◌, ◌*◌, ◌/◌, ◌%◌, ◌^◌, Bool, true, false, not, ◌&&◌, ◌||◌, Option, none, some,
  List, [], ◌∷◌, Bytes, length, Run, ok, ◌>>=◌, Mem, later, ltb, leb, ◌==◌, if◌then◌else◌,
}
use bsle.Server.{min_port, max_port, default_port, default_timeout, max_timeout}
use bsle.Crypto.{skip_space}
use bsle.Decimal.{is_digit, read_digits}
use bsle.Os.{Os, Kind, Stat}
use bsle.Paths.{f_set_home_dir}

-- `long int`.
pub data ℤ : Type 0 where
  pos negsuc : ℕ → ℤ

negate : ℕ → ℤ
negate zero = pos 0
negate (suc n) = negsuc n

-- `v > n`
unfoldable pub exceeds : ℤ → ℕ → Bool
exceeds (pos v) n = ltb n v
exceeds (negsuc v) n = false

-- `v < n`
unfoldable pub below : ℤ → ℕ → Bool
below (pos v) n = ltb v n
below (negsuc v) n = true

-- The value of a long that is not negative.
unfoldable pub magnitude : ℤ → ℕ
magnitude (pos v) = v
magnitude (negsuc v) = 0

-- The value, unless it does not fit into 64 bits.
to_long : Bool → ℕ → Option ℤ
unfolding negate
to_long true n = if leb n (2 ^ 63) then some (negate n) else none
to_long false n = if ltb n (2 ^ 63) then some (pos n) else none

-- The tests behind `strtol`: nothing may stand behind the digits.
whole_to_long : Bool → ℕ × Bytes → Option ℤ
unfolding to_long
whole_to_long negative (v, []) = to_long negative v
whole_to_long negative (v, d ∷ r) = none

-- `strtol` in base 10 from the digits on: there must be one.
digits_to_long : Bool → Bytes → Option ℤ
unfolding whole_to_long
digits_to_long negative [] = none
digits_to_long negative (c ∷ s) =
    if is_digit c then whole_to_long negative (read_digits (c ∷ s) 0) else none

signed_to_long : Bytes → Option ℤ
unfolding digits_to_long
signed_to_long [] = none
signed_to_long (c ∷ s) =
    if c == b'-'
    then digits_to_long true s
    else if c == b'+'
    then digits_to_long false s
    else digits_to_long false (c ∷ s)

-- `str_to_long`; `none` is a return of 0.
unfoldable pub str_to_long : Bytes → Option ℤ
unfolding signed_to_long
str_to_long str_num = signed_to_long (skip_space str_num)

port_of : Option ℤ → ℕ
port_of none = 0
port_of (some converted_port) =
    if exceeds converted_port max_port || below converted_port min_port
    then 0
    else magnitude converted_port

unfoldable pub get_port : Bytes → ℕ
unfolding port_of
get_port port = port_of (str_to_long port)

-- The value is cut to eight bits.
timeout_of : Option ℤ → ℕ
timeout_of none = 0
timeout_of (some converted_timeout) =
    if exceeds converted_timeout max_timeout
    then 0
    else if below converted_timeout 1
    then 0
    else magnitude converted_timeout % 256

unfoldable pub get_timeout : Bytes → ℕ
unfolding timeout_of
get_timeout timeout = timeout_of (str_to_long timeout)

-- `stat_buff.st_mode & R_OK`, with R_OK being 4, and with W_OK being 2.
pub reads : Stat → Bool
reads st = st.mode / 4 % 2 == 1

pub writes : Stat → Bool
writes st = st.mode / 2 % 2 == 1

-- What `getopt` returns: an option with its argument, or '?'.
pub data Opt : Type 0 where
  opt_port opt_timeout opt_home : Bytes → Opt
  opt_help opt_unknown : Opt

-- `args_t`
pub record Args : Type 0 where
  pub port : ℕ
  pub timeout : ℕ
  pub home_directory : Option Bytes

-- Which options were provided.
pub record Given : Type 0 where
  pub b_port : Bool
  pub b_timeout : Bool
  pub b_home_dir : Bool

module _ (os : Os) where
  open os use {World, stat}

  home_of : Mem → World → Bytes → Stat → Run (Option Bytes)
  unfolding reads writes
  home_of mem w home_dir st = elim st.kind [
    | Kind.directory ↦
        if not (reads st) || not (writes st)
        then ok none
        else f_set_home_dir os mem w (some home_dir) (length home_dir)
    | _ ↦ ok none
  ]

  unfoldable pub get_home_dir : Mem → World → Bytes → Run (Option Bytes)
  unfolding home_of
  get_home_dir mem w home_dir = elim (stat w home_dir) [
    | none ↦ ok none
    | some st ↦ home_of mem w home_dir st
  ]

  port_given : Args → Given → ℕ → Option (Args × Given)
  port_given args given port =
      if port == 0 then none else some (record args { port = port }, record given { b_port = true })

  timeout_given : Args → Given → ℕ → Option (Args × Given)
  timeout_given args given timeout =
      if timeout == 0
      then none
      else some (record args { timeout = timeout }, record given { b_timeout = true })

  home_given : Args → Given → Option Bytes → Option (Args × Given)
  home_given args given none = none
  home_given args given (some path) =
      some (record args { home_directory = some path }, record given { b_home_dir = true })

  -- One round of the loop; `none` is a jump to the error exit.
  unfoldable pub take_opt : Mem → World → Args → Given → Opt → Run (Option (Args × Given))
  unfolding port_given timeout_given home_given
  take_opt mem w args given (opt_port optarg) =
      ok (if given.b_port then none else port_given args given (get_port optarg))
  take_opt mem w args given (opt_timeout optarg) =
      ok (if given.b_timeout then none else timeout_given args given (get_timeout optarg))
  take_opt mem w args given (opt_home optarg) =
      if given.b_home_dir
      then ok none
      else get_home_dir mem w optarg >>= (λ path. ok (home_given args given path))
  take_opt mem w args given opt_help = ok none
  take_opt mem w args given opt_unknown = ok none

  -- How the loop goes on after a round.
  pub parse_on : (Args → Given → Run (Option Args)) → Option (Args × Given) → Run (Option Args)
  parse_on rest none = ok none
  parse_on rest (some (args, given)) = rest args given

  -- The loop over the options.
  pub parse_loop : Mem → World → List Opt → Args → Given → Run (Option Args)
  unfolding parse_on
  parse_loop mem w [] args given = ok (some args)
  parse_loop mem w (c ∷ rest) args given =
      let more = parse_loop mem w rest in
      take_opt mem w args given c >>= λ taken. parse_on more taken

  -- The tests behind the loop.
  finish_args : Bool → Option Args → Option Args
  finish_args left none = none
  finish_args left (some args) =
      if left then none else elim args.home_directory [ none ↦ none | some path ↦ some args ]

  -- `args_parse`; `left` tells whether `optind != argc`. The allocations are the `args_t` and those of
  -- the home directory, which is set once.
  unfoldable pub args_parse : Mem → World → ℕ → List Opt → Bool → Run (Option Args)
  unfolding parse_loop finish_args
  args_parse mem w argc opts left =
      if argc == 1
      then ok none
      else if mem 0
      then parse_loop (later 1 mem) w opts
          (record { port = default_port; timeout = default_timeout; home_directory = none })
          (record { b_port = false; b_timeout = false; b_home_dir = false })
        >>= (λ parsed. ok (finish_args left parsed))
      else ok none
