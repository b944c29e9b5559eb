-- ===== src/Utils/Order.antt =====
-- swap_byte_order, htonll and ntohll of src/server/utils.c on the bytes of a number.
use bsle.Prelude.{
  ℕ, zero, suc, ◌+◌, ◌*◌, ◌/◌, ◌%◌, ◌^◌, ◌<◌, ◌≡◌, refl, sym, ap, ◌∙◌, [], ◌∷◌, arith, Bytes,
  length, length-append,
}
use bsle.Utils.{swap_byte_order, ntohll, le_bytes, le_value, be_bytes, be_value}
use bsle.Utils.Words.{word, swap_word}

bytes_eq :
    {a b c d e f g h a' b' c' d' e' f' g' h' : ℕ}
    → a ≡ a'
    → b ≡ b'
    → c ≡ c'
    → d ≡ d'
    → e ≡ e'
    → f ≡ f'
    → g ≡ g'
    → h ≡ h'
    → ◌≡◌ {A = Bytes}
        (a ∷ b ∷ c ∷ d ∷ e ∷ f ∷ g ∷ h ∷ [])
        (a' ∷ b' ∷ c' ∷ d' ∷ e' ∷ f' ∷ g' ∷ h' ∷ [])
bytes_eq pa pb pc pd pe pf pg ph = cc

module _ (a b c d e f g h : ℕ) (ha : a < 256) (hb : b < 256) (hc : c < 256) (hd : d < 256)
    (he : e < 256) (hf : f < 256) (hg : g < 256) (hh : h < 256) where
  le_bytes-word : le_bytes 8 (word a b c d e f g h) ≡ a ∷ b ∷ c ∷ d ∷ e ∷ f ∷ g ∷ h ∷ []
  unfolding le_bytes
  le_bytes-word =
      let n = word a b c d e f g h in
      let n1 : n / 256 ≡ b + 256 * (c + 256 * (d + 256 * (e + 256 * (f + 256 * (g + 256 * h))))) =
        omega arith in
      let n2 : (b + 256 * (c + 256 * (d + 256 * (e + 256 * (f + 256 * (g + 256 * h)))))) / 256
          ≡ c + 256 * (d + 256 * (e + 256 * (f + 256 * (g + 256 * h)))) =
        omega arith in
      let n3 : (c + 256 * (d + 256 * (e + 256 * (f + 256 * (g + 256 * h))))) / 256
          ≡ d + 256 * (e + 256 * (f + 256 * (g + 256 * h))) =
        omega arith in
      let n4 : (d + 256 * (e + 256 * (f + 256 * (g + 256 * h)))) / 256
          ≡ e + 256 * (f + 256 * (g + 256 * h)) =
        omega arith in
      rw (n1, n2, n3, n4)
        (bytes_eq (omega arith) (omega arith) (omega arith) (omega arith) (omega arith)
          (omega arith) (omega arith) (omega arith))

number-word :
    (n : ℕ)
    → n < 2 ^ 64
    → n
      ≡ word
          (n % 256)
          (n / 256 % 256)
          (n / 256 / 256 % 256)
          (n / 256 / 256 / 256 % 256)
          (n / 256 / 256 / 256 / 256 % 256)
          (n / 256 / 256 / 256 / 256 / 256 % 256)
          (n / 256 / 256 / 256 / 256 / 256 / 256 % 256)
          (n / 256 / 256 / 256 / 256 / 256 / 256 / 256 % 256)
number-word n h = omega arith

swap-number :
    (n : ℕ)
    → n < 2 ^ 64
    → swap_byte_order n
      ≡ word
          (n / 256 / 256 / 256 / 256 / 256 / 256 / 256 % 256)
          (n / 256 / 256 / 256 / 256 / 256 / 256 % 256)
          (n / 256 / 256 / 256 / 256 / 256 % 256)
          (n / 256 / 256 / 256 / 256 % 256)
          (n / 256 / 256 / 256 % 256)
          (n / 256 / 256 % 256)
          (n / 256 % 256)
          (n % 256)
swap-number n h =
    ap swap_byte_order (number-word n h)
    ∙ swap_word _ _ _ _ _ _ _ _ (omega arith) (omega arith) (omega arith) (omega arith)
        (omega arith) (omega arith) (omega arith) (omega arith)

-- `swap_byte_order` reverses the bytes of a number of 64 bits: those that it leaves in memory are the
-- bytes of the number in network order.
pub swap_byte_order-be_bytes : (n : ℕ) → n < 2 ^ 64 → le_bytes 8 (swap_byte_order n) ≡ be_bytes 8 n
unfolding be_bytes
swap_byte_order-be_bytes n h =
    ap (le_bytes 8) (swap-number n h)
    ∙ le_bytes-word _ _ _ _ _ _ _ _ (omega arith) (omega arith) (omega arith) (omega arith)
        (omega arith) (omega arith) (omega arith) (omega arith)

-- What `ntohll` makes of the eight bytes of a number in network order is the number.
pub ntohll-be_bytes : (n : ℕ) → n < 2 ^ 64 → ntohll (le_value (be_bytes 8 n)) ≡ n
unfolding ntohll be_bytes le_value
ntohll-be_bytes n h =
    let flat : le_value (be_bytes 8 n)
        ≡ word (n / 256 / 256 / 256 / 256 / 256 / 256 / 256 % 256)
            (n / 256 / 256 / 256 / 256 / 256 / 256 % 256) (n / 256 / 256 / 256 / 256 / 256 % 256)
            (n / 256 / 256 / 256 / 256 % 256) (n / 256 / 256 / 256 % 256) (n / 256 / 256 % 256)
            (n / 256 % 256) (n % 256) =
      omega arith in
    ap swap_byte_order flat
    ∙ swap_word _ _ _ _ _ _ _ _ (omega arith) (omega arith) (omega arith) (omega arith)
        (omega arith) (omega arith) (omega arith) (omega arith)
    ∙ sym (number-word n h)

pub be_value-be_bytes_2 : (n : ℕ) → n < 2 ^ 16 → be_value 0 (be_bytes 2 n) ≡ n
unfolding be_value be_bytes
be_value-be_bytes_2 n h = omega arith

pub be_value-be_bytes_4 : (n : ℕ) → n < 2 ^ 32 → be_value 0 (be_bytes 4 n) ≡ n
unfolding be_value be_bytes
be_value-be_bytes_4 n h = omega arith

pub le_value_byte : (b : ℕ) → le_value (b ∷ []) ≡ b
unfolding le_value
le_value_byte b = omega arith

pub length-be_bytes : (k n : ℕ) → length (be_bytes k n) ≡ k
unfolding be_bytes
length-be_bytes zero n = refl
length-be_bytes (suc k) n =
    omega (arith, length-append (be_bytes k (n / 256)) (n % 256 ∷ []), length-be_bytes k (n / 256))

pub le_value-le_bytes_1 : (n : ℕ) → n < 256 → le_value (le_bytes 1 n) ≡ n
unfolding le_value le_bytes
le_value-le_bytes_1 n h = omega arith

pub length-le_bytes : (k n : ℕ) → length (le_bytes k n) ≡ k
unfolding le_bytes
length-le_bytes zero n = refl
length-le_bytes (suc k) n = omega (arith, length-le_bytes k (n / 256))
