-- ===== src/Utils/Bits.antt =====
-- The bit operations that swap_byte_order of src/server/utils.c is made of, digit by digit.
use Prim.Native.Nat.{min, max, bit_and, bit_or, digits, bit_and-bitwise, bit_or-bitwise}
use bsle.Prelude.{ℕ, zero, suc, ◌+◌, ◌-◌, ◌*◌, ◌/◌, ◌%◌, ◌^◌, ◌≤◌, ◌<◌, ◌≡◌, ◌∙◌, sym, refl, arith}

-- The recursion behind the operations has a digit for each round; the rounds beyond a number do nothing.
module _ (last : ℕ → ℕ) (op : ℕ → ℕ → ℕ) where
  idle : (rounds b : ℕ) → digits last op rounds 0 b ≡ last b
  idle zero b = refl
  idle (suc rounds) b = refl

  spare :
      (extra rounds a b : ℕ)
      → a ≤ rounds
      → digits last op (rounds + extra) a b ≡ digits last op rounds a b
  spare extra rounds zero b h = idle (rounds + extra) b ∙ sym (idle rounds b)
  spare extra zero (suc a) b h = absurd (omega (arith, h))
  spare extra (suc rounds) (suc a) b h =
      let longer : suc rounds + extra ≡ suc (rounds + extra) = omega arith in
      let half = spare extra rounds (suc a / 2) (b / 2) (omega (arith, h)) in
      rw longer (omega (arith, half))

  -- As many rounds as the half of a number, in place of one less than the number.
  enough : (a b : ℕ) → digits last op a (suc a / 2) b ≡ digits last op (suc a / 2) (suc a / 2) b
  enough a b =
      let whole : suc a / 2 + (a - suc a / 2) ≡ a = omega arith in
      rw whole at (spare (a - suc a / 2) (suc a / 2) (suc a / 2) b (omega arith))

and_step : (a b : ℕ) → bit_and a b ≡ 2 * bit_and (a / 2) (b / 2) + min (a % 2) (b % 2)
and_step zero b = omega (arith, bit_and-bitwise 0 b, bit_and-bitwise 0 (b / 2))
and_step (suc a) b =
    let rest = enough (λ c. 0) min a (b / 2) in
    omega (arith, rest, bit_and-bitwise (suc a) b, bit_and-bitwise (suc a / 2) (b / 2))

or_step : (a b : ℕ) → bit_or a b ≡ 2 * bit_or (a / 2) (b / 2) + max (a % 2) (b % 2)
or_step zero b = omega (arith, bit_or-bitwise 0 b, bit_or-bitwise 0 (b / 2))
or_step (suc a) b =
    let rest = enough (λ c. c) max a (b / 2) in
    omega (arith, rest, bit_or-bitwise (suc a) b, bit_or-bitwise (suc a / 2) (b / 2))

power_suc : (n x : ℕ) → 2 ^ suc n * x ≡ 2 * (2 ^ n * x)
power_suc n x = grind arith

-- An operation that works bit by bit works on the low and the high bits apart.
module _ (op bit : ℕ → ℕ → ℕ)
    (step : (a b : ℕ) → op a b ≡ 2 * op (a / 2) (b / 2) + bit (a % 2) (b % 2))
    (origin : op 0 0 ≡ 0) where
  op_parts :
      (n a b m k : ℕ)
      → a < 2 ^ n
      → b < 2 ^ n
      → op (a + 2 ^ n * m) (b + 2 ^ n * k) ≡ op a b + 2 ^ n * op m k
  op_parts zero a b m k p q =
      let none_a : a ≡ 0 = omega arith in
      let none_b : b ≡ 0 = omega arith in
      let flat_m : 0 + 2 ^ 0 * m ≡ m = omega arith in
      let flat_k : 0 + 2 ^ 0 * k ≡ k = omega arith in
      rw (none_a, none_b) (rw (flat_m, flat_k) (omega (arith, origin)))
  op_parts (suc n) a b m k p q =
      let double = λ (x : ℕ). power_suc n x in
      let half_a : (a + 2 ^ suc n * m) / 2 ≡ a / 2 + 2 ^ n * m = omega (arith, double m) in
      let half_b : (b + 2 ^ suc n * k) / 2 ≡ b / 2 + 2 ^ n * k = omega (arith, double k) in
      let low_a : (a + 2 ^ suc n * m) % 2 ≡ a % 2 = omega (arith, double m) in
      let low_b : (b + 2 ^ suc n * k) % 2 ≡ b % 2 = omega (arith, double k) in
      let next =
        op_parts n (a / 2) (b / 2) m k (omega (arith, double 1)) (omega (arith, double 1)) in
      let all = step (a + 2 ^ suc n * m) (b + 2 ^ suc n * k) in
      omega (arith, rw (half_a, half_b, low_a, low_b, next) at all, step a b, double (op m k))

-- The two operations on the lowest byte and the rest.
pub and_byte :
    (a b m k : ℕ)
    → a < 256
    → b < 256
    → bit_and (a + 256 * m) (b + 256 * k) ≡ bit_and a b + 256 * bit_and m k
and_byte a b m k p q = op_parts bit_and min and_step refl 8 a b m k p q

pub or_byte :
    (a b m k : ℕ)
    → a < 256
    → b < 256
    → bit_or (a + 256 * m) (b + 256 * k) ≡ bit_or a b + 256 * bit_or m k
or_byte a b m k p q = op_parts bit_or max or_step refl 8 a b m k p q

and-zero_fuel : (n a : ℕ) → a ≤ n → bit_and a 0 ≡ 0
and-zero_fuel zero zero h = refl
and-zero_fuel zero (suc a) h = absurd (omega arith)
and-zero_fuel (suc n) zero h = refl
and-zero_fuel (suc n) (suc a) h =
    omega (arith, and_step (suc a) 0, and-zero_fuel n (suc a / 2) (omega arith))

pub and-zero : (a : ℕ) → bit_and a 0 ≡ 0
and-zero a = and-zero_fuel a a (omega arith)

or-zero_fuel : (n a : ℕ) → a ≤ n → bit_or a 0 ≡ a
or-zero_fuel zero zero h = refl
or-zero_fuel zero (suc a) h = absurd (omega arith)
or-zero_fuel (suc n) zero h = refl
or-zero_fuel (suc n) (suc a) h =
    omega (arith, or_step (suc a) 0, or-zero_fuel n (suc a / 2) (omega arith))

pub or-zero : (a : ℕ) → bit_or a 0 ≡ a
or-zero a = or-zero_fuel a a (omega arith)

pub zero-or : (a : ℕ) → bit_or 0 a ≡ a
zero-or a = bit_or-bitwise 0 a

-- One more digit of a mask of ones keeps one more digit.
mask_more :
    (ones width : ℕ)
    → ((a : ℕ) → bit_and a ones ≡ a % width)
    → (a : ℕ) → bit_and a (1 + 2 * ones) ≡ 2 * (a / 2 % width) + a % 2
mask_more ones width low a =
    let half : (1 + 2 * ones) / 2 ≡ ones = omega arith in
    let odd : (1 + 2 * ones) % 2 ≡ 1 = omega arith in
    let all = rw (half, odd) at (and_step a (1 + 2 * ones)) in omega (arith, all, low (a / 2))

mask_1 : (a : ℕ) → bit_and a 1 ≡ a % 2
mask_1 a = omega (arith, and_step a 1, and-zero (a / 2))

mask_3 : (a : ℕ) → bit_and a 3 ≡ a % 4
mask_3 a = omega (arith, mask_more 1 2 mask_1 a)

mask_15 : (a : ℕ) → bit_and a 15 ≡ a % 16
mask_15 a = omega (arith, mask_more 7 8 (λ b. omega (arith, mask_more 3 4 mask_3 b)) a)

mask_63 : (a : ℕ) → bit_and a 63 ≡ a % 64
mask_63 a = omega (arith, mask_more 31 32 (λ b. omega (arith, mask_more 15 16 mask_15 b)) a)

pub mask_byte : (a : ℕ) → bit_and a 255 ≡ a % 256
mask_byte a = omega (arith, mask_more 127 128 (λ b. omega (arith, mask_more 63 64 mask_63 b)) a)
