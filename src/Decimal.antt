-- ===== src/Decimal.antt =====
-- Decimal text as the C library prints and reads it: `%ld` of a size, `%hhu` of a byte, `%hhu` in
-- `sscanf`, and `strtol`.
pub mod RoundTrip
use bsle.Prelude.{
  ℕ, zero, suc, ◌+◌, ◌-◌, ◌*◌, ◌/◌, ◌%◌, Bool, ◌&&◌, [], ◌∷◌, Bytes, leb, ◌==◌, if◌then◌else◌,
}

-- The digits of `n`, last digit first computed; `fuel` rounds make at most `fuel` digits.
dec_digits : ℕ → ℕ → Bytes → Bytes
dec_digits zero n out = out
dec_digits (suc fuel) n out =
    let more = dec_digits fuel (n / 10) ((b'0' + n % 10) ∷ out) in if n == 0 then out else more

print_with : ℕ → ℕ → Bytes
unfolding dec_digits
print_with fuel n = if n == 0 then b'0' ∷ [] else dec_digits fuel n []

-- A number below 10^20, as every 64-bit number is.
unfoldable pub print_dec : ℕ → Bytes
unfolding print_with
print_dec = print_with 20

unfoldable pub is_digit : ℕ → Bool
is_digit c = leb b'0' c && leb c b'9'

-- The value of the digits at the front on top of `n`, and what stands behind them.
unfoldable pub read_digits : Bytes → ℕ → ℕ × Bytes
unfolding is_digit
read_digits [] n = (n, [])
read_digits (c ∷ s) n =
    let more = read_digits s (n * 10 + (c - b'0')) in if is_digit c then more else (n, c ∷ s)
