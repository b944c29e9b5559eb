-- ===== src/Decimal/RoundTrip.antt =====
-- Decimal text of the C library, printed and read again.
use bsle.Prelude.{
  ℕ, zero, suc, ◌+◌, ◌*◌, ◌/◌, ◌%◌, ◌^◌, ◌<◌, ◌≡◌, ◌∙◌, refl, true, [], ◌∷◌, Bytes, ◌==◌, arith,
  Bool-cases, inl, inr,
}
use native.Mathlib.Numerals.{unary_clauses}
use bsle.Decimal.{print_with, print_dec, is_digit, read_digits, dec_digits}

-- A digit that is printed is read.
read_digits-digit :
    (d n : ℕ) (s : Bytes) → d < 10 → read_digits ((b'0' + d) ∷ s) n ≡ read_digits s (n * 10 + d)
unfolding read_digits
read_digits-digit d n s h = ground arith

-- The digits are read on top of the number that they were taken from.
read_digits-dec_digits :
    (fuel n : ℕ) (out : Bytes)
    → n < 10 ^ fuel
    → read_digits (dec_digits fuel n out) 0 ≡ read_digits out n
unfolding dec_digits
read_digits-dec_digits zero n out h = let none_left : n ≡ 0 = omega (arith, h) in rw none_left refl
read_digits-dec_digits (suc fuel) n out h = elim (Bool-cases (n == 0)) [
  | inl e ↦ rw e (ground arith)
  | inr e ↦
      let room : n < 10 ^ fuel * 10 = simp unary_clauses at h in
      let value : n / 10 * 10 + n % 10 ≡ n = omega arith in
      rw e (
        read_digits-dec_digits fuel (n / 10) ((b'0' + n % 10) ∷ out) (omega (arith, room))
        ∙ read_digits-digit (n % 10) (n / 10) out (omega arith)
        ∙ rw value refl)
]

-- A text that begins with a digit.
pub record IsNumeral (s : Bytes) : Type 0 where
  pub first : ℕ
  pub rest : Bytes
  pub begins : s ≡ first ∷ rest
  pub digit : is_digit first ≡ true

IsNumeral-digit : (d : ℕ) (s : Bytes) → d < 10 → IsNumeral ((b'0' + d) ∷ s)
unfolding is_digit
IsNumeral-digit d s h = record { first = b'0' + d; rest = s; begins = refl; digit = ground arith }

dec_digits-IsNumeral :
    (fuel n : ℕ) (out : Bytes) → IsNumeral out → IsNumeral (dec_digits fuel n out)
unfolding dec_digits
dec_digits-IsNumeral zero n out i = i
dec_digits-IsNumeral (suc fuel) n out i = elim (Bool-cases (n == 0)) [
  | inl e ↦ rw e i
  | inr e ↦ rw e (
      dec_digits-IsNumeral fuel (n / 10) ((b'0' + n % 10) ∷ out)
        (IsNumeral-digit (n % 10) out (omega arith)))
]

print_with-IsNumeral : (fuel n : ℕ) → IsNumeral (print_with (suc fuel) n)
unfolding print_with
print_with-IsNumeral fuel n = elim (Bool-cases (n == 0)) [
  | inl e ↦ rw e (IsNumeral-digit 0 [] (omega arith))
  | inr e ↦ rw e (
      dec_digits-IsNumeral fuel (n / 10) ((b'0' + n % 10) ∷ [])
        (IsNumeral-digit (n % 10) [] (omega arith)))
]

pub print_dec-IsNumeral : (n : ℕ) → IsNumeral (print_dec n)
unfolding print_dec
print_dec-IsNumeral = print_with-IsNumeral 19

read_digits-print_with : (fuel n : ℕ) → n < 10 ^ fuel → read_digits (print_with fuel n) 0 ≡ (n, [])
unfolding print_with read_digits
read_digits-print_with fuel n h = elim (Bool-cases (n == 0)) [
  | inl e ↦ rw e (ground arith)
  | inr e ↦ rw e (read_digits-dec_digits fuel n [] h)
]

-- A number below 10^20 is read from its decimal text, whole.
pub read_digits-print_dec : (n : ℕ) → n < 10 ^ 20 → read_digits (print_dec n) 0 ≡ (n, [])
unfolding print_dec
read_digits-print_dec = read_digits-print_with 20
