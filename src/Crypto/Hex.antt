-- ===== src/Crypto/Hex.antt =====
-- hex_char_to_byte_array and print_b_array of src/server/server_crypto.c.
use bsle.Prelude.{
  ℕ, zero, suc, ◌+◌, ◌*◌, ◌/◌, ◌%◌, ◌≤◌, ◌<◌, ◌≡◌, ◌≢◌, refl, ap, ◌∙◌, true, some, [], ◌∷◌, ◌++◌,
  append_assoc, append-nil, arith, Bytes, length, drop, drop-add, ok, stuck, All, Lacks, IsByte,
  Mem, lt→ltb, le→ltb,
}
use bsle.Crypto.{
  hex_value, hex_digit, print_b_array, scan_hex, scan_none, scan_byte, hex_loop,
  hex_char_to_byte_array,
}

hex_value-hex_digit : (n : ℕ) → n < 16 → hex_value (hex_digit n) ≡ some n
unfolding hex_value hex_digit
hex_value-hex_digit n h = ground arith

hex_digit_plain : (n : ℕ) → n < 16 → (48 ≤ hex_digit n) × (hex_digit n ≤ 102)
unfolding hex_digit
hex_digit_plain n h = ground arith

-- Two printed digits are read as the byte that they print.
scan_hex-hex_digit :
    (b : ℕ) (s : Bytes)
    → b < 256
    → scan_hex (hex_digit (b / 16) ∷ hex_digit (b % 16) ∷ s) ≡ scan_byte b
unfolding scan_hex
scan_hex-hex_digit b s h = ground (
  arith,
  hex_value-hex_digit (b / 16) (omega arith),
  hex_value-hex_digit (b % 16) (omega arith),
  hex_digit_plain (b / 16) (omega arith),
)

pub length-print_b_array : (bs : Bytes) → length (print_b_array bs) ≡ 2 * length bs
unfolding print_b_array
length-print_b_array [] = omega arith
length-print_b_array (b ∷ bs) = omega (arith, length-print_b_array bs)

drop_digits : (b : ℕ) (bs : Bytes) → drop 2 (print_b_array (b ∷ bs)) ≡ print_b_array bs
unfolding print_b_array
drop_digits b bs = refl

scan_printed : (b : ℕ) (bs : Bytes) → b < 256 → scan_hex (print_b_array (b ∷ bs)) ≡ scan_byte b
unfolding print_b_array
scan_printed b bs h = scan_hex-hex_digit b (print_b_array bs) h

hex_loop_byte :
    (fuel : ℕ) (s : Bytes) (size idx : ℕ) (done : Bytes) (b : ℕ)
    → idx < size
    → scan_hex (drop idx s) ≡ scan_byte b
    → hex_loop (suc fuel) s size idx done ≡ hex_loop fuel s size (idx + 2) (done ++ b ∷ [])
unfolding hex_loop
hex_loop_byte fuel s size idx done b room e = rw (lt→ltb _ _ room, e)

hex_loop_end :
    (fuel : ℕ) (s : Bytes) (size : ℕ) (done : Bytes)
    → hex_loop (suc fuel) s size size done ≡ ok (some done)
unfolding hex_loop
hex_loop_end fuel s size done = rw (le→ltb size size (omega arith))

hex_loop-print_b_array :
    (bs : Bytes) (fuel : ℕ) (s : Bytes) (size idx : ℕ) (done : Bytes)
    → All IsByte bs
    → length bs < fuel
    → size ≡ idx + 2 * length bs
    → drop idx s ≡ print_b_array bs
    → hex_loop fuel s size idx done ≡ ok (some (done ++ bs))
hex_loop-print_b_array bs zero s size idx done h f n e = absurd (omega arith)
hex_loop-print_b_array [] (suc fuel) s size idx done h f n e =
    let here : size ≡ idx = omega arith in rw (here, append-nil done) (hex_loop_end fuel s idx done)
hex_loop-print_b_array (b ∷ bs) (suc fuel) s size idx done h f n e =
    let tail : drop (idx + 2) s ≡ print_b_array bs =
      drop-add idx 2 s ∙ ap (drop 2) e ∙ drop_digits b bs in
    hex_loop_byte fuel s size idx done b (omega arith) (ap scan_hex e ∙ scan_printed b bs h.0)
    ∙ hex_loop-print_b_array bs fuel s size (idx + 2) (done ++ b ∷ []) h.1 (omega arith)
        (omega arith) tail
    ∙ ap (λ (t : Bytes). ok (some t)) (append_assoc done (b ∷ []) bs)

hex_digit-range : (n : ℕ) → n < 16 → (hex_digit n ≢ b'\n') × (hex_digit n ≢ 0)
hex_digit-range n h = grind (arith, hex_digit_plain n h)

pub print_b_array-Lacks :
    (bs : Bytes) → All IsByte bs → Lacks b'\n' (print_b_array bs) × Lacks 0 (print_b_array bs)
unfolding print_b_array
print_b_array-Lacks [] h = (tt, tt)
print_b_array-Lacks (b ∷ bs) h =
    let hi = hex_digit-range (b / 16) (omega arith) in
    let lo = hex_digit-range (b % 16) (omega arith) in
    let (nl, nul) = print_b_array-Lacks bs h.1 in ((hi.0, (lo.0, nl)), (hi.1, (lo.1, nul)))

hex_loop_diverges :
    (fuel : ℕ) (s : Bytes) (size : ℕ) (done : Bytes)
    → 0 < size
    → scan_hex s ≡ scan_none
    → hex_loop fuel s size 0 done ≡ stuck
unfolding hex_loop
hex_loop_diverges zero s size done pos bad = refl
hex_loop_diverges (suc fuel) s size done pos bad =
    rw (lt→ltb _ _ pos, bad) (hex_loop_diverges fuel s size done pos bad)

-- The hexadecimal text of a non-empty byte array is read back as that array, when memory does not
-- run out: the loop ends with one round for each byte and one more.
pub hex_char_to_byte_array-print_b_array :
    (mem : Mem) (fuel : ℕ) (bs : Bytes)
    → All IsByte bs
    → bs ≢ []
    → length bs < fuel
    → mem 0 ≡ true
    → mem 1 ≡ true
    → hex_char_to_byte_array mem fuel (some (print_b_array bs)) (length (print_b_array bs))
      ≡ ok (some (record { size = length bs; array = bs }))
unfolding hex_char_to_byte_array
hex_char_to_byte_array-print_b_array mem fuel [] h ne f m0 m1 = absurd (ne refl)
hex_char_to_byte_array-print_b_array mem fuel (b ∷ bs) h ne f m0 m1 =
    let text = print_b_array (b ∷ bs) in
    let size = length text in
    let loop =
      hex_loop-print_b_array (b ∷ bs) fuel text size 0 [] h f
        (omega (arith, length-print_b_array (b ∷ bs))) refl in
    ground (arith, loop, length-print_b_array (b ∷ bs))

-- The loop never ends on a text with an even number of characters whose first one cannot begin a
-- number: no amount of fuel is enough.
pub hex_char_to_byte_array_diverges :
    (mem : Mem) (fuel : ℕ) (s : Bytes)
    → mem 0 ≡ true
    → 0 < length s
    → length s % 2 ≡ 0
    → scan_hex s ≡ scan_none
    → hex_char_to_byte_array mem fuel (some s) (length s) ≡ stuck
unfolding hex_char_to_byte_array
hex_char_to_byte_array_diverges mem fuel s m0 pos even bad =
    ground (arith, hex_loop_diverges fuel s (length s) [] pos bad)
