-- ===== src/Args/Numbers.antt =====
-- str_to_long, get_port and get_timeout of src/server/server_args.c.
use bsle.Prelude.{
  ℕ, ◌⊎◌, ◌%◌, ◌^◌, ◌≤◌, ◌<◌, ◌≡◌, refl, true, false, ◌&&◌, Option, some, none, [], ◌∷◌, Bytes,
  lt→ltb, leb, ◌==◌, if◌then◌else◌, arith, inl,
}
use bsle.Server.{min_port, max_port, max_timeout}
use bsle.Crypto.{skip_space}
use bsle.Decimal.{print_dec, is_digit, read_digits}
use bsle.Decimal.RoundTrip.{print_dec-IsNumeral, read_digits-print_dec}
use bsle.Args.{
  ℤ, pos, negsuc, exceeds, below, magnitude, to_long, digits_to_long, signed_to_long, str_to_long,
  port_of, get_port, timeout_of, get_timeout,
}

digit_not_space : (c : ℕ) (s : Bytes) → is_digit c ≡ true → skip_space (c ∷ s) ≡ c ∷ s
unfolding skip_space is_digit
digit_not_space c s d = ground arith

digit_not_sign : (c : ℕ) → is_digit c ≡ true → ((c == b'-') ≡ false) × ((c == b'+') ≡ false)
unfolding is_digit
digit_not_sign c d = (ground arith, ground arith)

digits_long :
    (c n : ℕ) (s : Bytes)
    → is_digit c ≡ true
    → read_digits (c ∷ s) 0 ≡ (n, [])
    → n < 2 ^ 63
    → digits_to_long false (c ∷ s) ≡ some (pos n)
unfolding digits_to_long to_long
digits_long c n s d value h = rw d (rw value (rw (lt→ltb n (2 ^ 63) h) refl))

-- A text that begins with a digit is read as its digits.
numeral_long :
    (c n : ℕ) (s : Bytes)
    → is_digit c ≡ true
    → read_digits (c ∷ s) 0 ≡ (n, [])
    → n < 2 ^ 63
    → str_to_long (c ∷ s) ≡ some (pos n)
unfolding str_to_long signed_to_long
numeral_long c n s d value h =
    let (minus, plus) = digit_not_sign c d in
    rw (digit_not_space c s d, str_to_long) (rw minus (rw plus (digits_long c n s d value h)))

-- The decimal text of a number below 2^63 is read as that number.
pub str_to_long-print_dec : (n : ℕ) → n < 2 ^ 63 → str_to_long (print_dec n) ≡ some (pos n)
str_to_long-print_dec n h =
    let i = print_dec-IsNumeral n in
    let value = read_digits-print_dec n (omega (arith, h)) in
    rw (i.begins) (numeral_long i.first n i.rest i.digit (rw (i.begins) at value) h)

-- The text of a number below 2^63 is accepted as a port exactly if the number is one from 1025 to 65535, and
-- then it is that port.
pub get_port-print_dec :
    (n : ℕ)
    → n < 2 ^ 63
    → get_port (print_dec n) ≡ (if leb min_port n && leb n max_port then n else 0)
unfolding get_port exceeds below magnitude
get_port-print_dec n h = rw (str_to_long-print_dec n h) (ground arith)

-- The text of a number below 2^63 is accepted as a timeout exactly if the number is from 1 to 300, except 256,
-- but what is returned is the number cut to eight bits.
pub get_timeout-print_dec :
    (n : ℕ)
    → n < 2 ^ 63
    → get_timeout (print_dec n) ≡ (if leb 1 n && leb n max_timeout then n % 256 else 0)
unfolding get_timeout exceeds below magnitude
get_timeout-print_dec n h = rw (str_to_long-print_dec n h) (ground arith)

port_of_range : (o : Option ℤ) → (port_of o ≡ 0) ⊎ ((min_port ≤ port_of o) × (port_of o ≤ max_port))
unfolding port_of exceeds below magnitude
port_of_range none = inl refl
port_of_range (some (pos v)) = ground arith
port_of_range (some (negsuc v)) = inl refl

pub get_port_range :
    (s : Bytes) → (get_port s ≡ 0) ⊎ ((min_port ≤ get_port s) × (get_port s ≤ max_port))
unfolding get_port
get_port_range s = port_of_range (str_to_long s)

timeout_of_range : (o : Option ℤ) → timeout_of o ≤ 255
unfolding timeout_of exceeds below magnitude
timeout_of_range none = omega arith
timeout_of_range (some (pos v)) = ground arith
timeout_of_range (some (negsuc v)) = omega arith

pub get_timeout_range : (s : Bytes) → get_timeout s ≤ 255
unfolding get_timeout
get_timeout_range s = timeout_of_range (str_to_long s)
