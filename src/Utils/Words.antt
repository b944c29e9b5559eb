-- ===== src/Utils/Words.antt =====
-- swap_byte_order of src/server/utils.c on a number of eight bytes.
use Prim.Native.Nat.{bit_and, bit_or}
use bsle.Prelude.{ℕ, ◌+◌, ◌*◌, ◌/◌, ◌%◌, ◌^◌, ◌<◌, ◌≡◌, refl, arith}
use bsle.Utils.{swap_byte_order}
use bsle.Utils.Bits.{and_byte, or_byte, and-zero, or-zero, zero-or, mask_byte}

-- Eight bytes, lowest first.
abbrev pub word : ℕ → ℕ → ℕ → ℕ → ℕ → ℕ → ℕ → ℕ → ℕ
word a b c d e f g h =
    a + 256 * (b + 256 * (c + 256 * (d + 256 * (e + 256 * (f + 256 * (g + 256 * h))))))

module _ (a b c d e f g h : ℕ) (ha : a < 256) (hb : b < 256) (hc : c < 256) (hd : d < 256)
    (he : e < 256) (hf : f < 256) (hg : g < 256) (hh : h < 256) where
  and_word :
      (a' b' c' d' e' f' g' h' : ℕ)
      → a' < 256
      → b' < 256
      → c' < 256
      → d' < 256
      → e' < 256
      → f' < 256
      → g' < 256
      → bit_and (word a b c d e f g h) (word a' b' c' d' e' f' g' h')
        ≡ word
            (bit_and a a')
            (bit_and b b')
            (bit_and c c')
            (bit_and d d')
            (bit_and e e')
            (bit_and f f')
            (bit_and g g')
            (bit_and h h')
  and_word a' b' c' d' e' f' g' h' pa pb pc pd pe pf pg =
      rw
        (
          and_byte a a' _ _ ha pa,
          and_byte b b' _ _ hb pb,
          and_byte c c' _ _ hc pc,
          and_byte d d' _ _ hd pd,
          and_byte e e' _ _ he pe,
          and_byte f f' _ _ hf pf,
          and_byte g g' _ _ hg pg,
        )
        refl

  or_word :
      (a' b' c' d' e' f' g' h' : ℕ)
      → a' < 256
      → b' < 256
      → c' < 256
      → d' < 256
      → e' < 256
      → f' < 256
      → g' < 256
      → bit_or (word a b c d e f g h) (word a' b' c' d' e' f' g' h')
        ≡ word
            (bit_or a a')
            (bit_or b b')
            (bit_or c c')
            (bit_or d d')
            (bit_or e e')
            (bit_or f f')
            (bit_or g g')
            (bit_or h h')
  or_word a' b' c' d' e' f' g' h' pa pb pc pd pe pf pg =
      rw
        (
          or_byte a a' _ _ ha pa,
          or_byte b b' _ _ hb pb,
          or_byte c c' _ _ hc pc,
          or_byte d d' _ _ hd pd,
          or_byte e e' _ _ he pe,
          or_byte f f' _ _ hf pf,
          or_byte g g' _ _ hg pg,
        )
        refl

keep : (a : ℕ) → a < 256 → bit_and a 255 ≡ a
keep a h = omega (arith, mask_byte a)

ruleset byte_laws = (and-zero, or-zero, zero-or)

module _ (a b c d e f g h : ℕ) (ha : a < 256) (hb : b < 256) (hc : c < 256) (hd : d < 256)
    (he : e < 256) (hf : f < 256) (hg : g < 256) (hh : h < 256) where
  -- The neighbours of each pair of bytes are exchanged, then those of each pair of pairs.
  swap_pairs :
      bit_or
        (bit_and (word a b c d e f g h * 2 ^ 8 % 2 ^ 64) 0xFF00FF00FF00FF00)
        (bit_and (word a b c d e f g h / 2 ^ 8) 0x00FF00FF00FF00FF)
      ≡ word b a d c f e h g
  swap_pairs =
      let up : word a b c d e f g h * 2 ^ 8 % 2 ^ 64 ≡ word 0 a b c d e f g = omega arith in
      let down : word a b c d e f g h / 2 ^ 8 ≡ word b c d e f g h 0 = omega arith in
      let z : 0 < 256 = omega arith in
      let o : 255 < 256 = omega arith in
      rw
        (
          up,
          down,
          and_word 0 a b c d e f g z ha hb hc hd he hf hg 0 255 0 255 0 255 0 255 z o z o z o z,
          and_word b c d e f g h 0 hb hc hd he hf hg hh z 255 0 255 0 255 0 255 0 o z o z o z o,
          keep a ha,
          keep b hb,
          keep c hc,
          keep d hd,
          keep e he,
          keep f hf,
          keep g hg,
          keep h hh,
          and-zero b,
          and-zero c,
          and-zero d,
          and-zero e,
          and-zero f,
          and-zero g,
          or_word 0 a 0 c 0 e 0 g z ha z hc z he z hg b 0 d 0 f 0 h 0 hb z hd z hf z hh,
          or-zero a,
          or-zero c,
          or-zero e,
          or-zero g,
          zero-or b,
          zero-or d,
          zero-or f,
          zero-or h,
        )
        refl

  swap_quads :
      bit_or
        (bit_and (word a b c d e f g h * 2 ^ 16 % 2 ^ 64) 0xFFFF0000FFFF0000)
        (bit_and (word a b c d e f g h / 2 ^ 16) 0x0000FFFF0000FFFF)
      ≡ word c d a b g h e f
  swap_quads =
      let up : word a b c d e f g h * 2 ^ 16 % 2 ^ 64 ≡ word 0 0 a b c d e f = omega arith in
      let down : word a b c d e f g h / 2 ^ 16 ≡ word c d e f g h 0 0 = omega arith in
      let z : 0 < 256 = omega arith in
      let o : 255 < 256 = omega arith in
      rw
        (
          up,
          down,
          and_word 0 0 a b c d e f z z ha hb hc hd he hf 0 0 255 255 0 0 255 255 z z o o z z o,
          and_word c d e f g h 0 0 hc hd he hf hg hh z z 255 255 0 0 255 255 0 0 o o z z o o z,
          keep a ha,
          keep b hb,
          keep c hc,
          keep d hd,
          keep e he,
          keep f hf,
          keep g hg,
          keep h hh,
          and-zero c,
          and-zero d,
          and-zero e,
          and-zero f,
          or_word 0 0 a b 0 0 e f z z ha hb z z he hf c d 0 0 g h 0 0 hc hd z z hg hh z,
          or-zero a,
          or-zero b,
          or-zero e,
          or-zero f,
          zero-or c,
          zero-or d,
          zero-or g,
          zero-or h,
        )
        refl

  swap_halves :
      bit_or (word a b c d e f g h * 2 ^ 32 % 2 ^ 64) (word a b c d e f g h / 2 ^ 32)
      ≡ word e f g h a b c d
  swap_halves =
      let up : word a b c d e f g h * 2 ^ 32 % 2 ^ 64 ≡ word 0 0 0 0 a b c d = omega arith in
      let down : word a b c d e f g h / 2 ^ 32 ≡ word e f g h 0 0 0 0 = omega arith in
      let z : 0 < 256 = omega arith in
      rw
        (
          up,
          down,
          or_word 0 0 0 0 a b c d z z z z ha hb hc hd e f g h 0 0 0 0 he hf hg hh z z z,
          or-zero a,
          or-zero b,
          or-zero c,
          or-zero d,
          zero-or e,
          zero-or f,
          zero-or g,
          zero-or h,
        )
        refl

pub swap_word :
    (a b c d e f g h : ℕ)
    → a < 256
    → b < 256
    → c < 256
    → d < 256
    → e < 256
    → f < 256
    → g < 256
    → h < 256
    → swap_byte_order (word a b c d e f g h) ≡ word h g f e d c b a
unfolding swap_byte_order
swap_word a b c d e f g h ha hb hc hd he hf hg hh =
    rw
      (
        swap_pairs a b c d e f g h ha hb hc hd he hf hg hh,
        swap_quads b a d c f e h g hb ha hd hc hf he hh hg,
        swap_halves d c b a h g f e hd hc hb ha hh hg hf he,
      )
      refl
