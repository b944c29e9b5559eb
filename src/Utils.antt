-- ===== src/Utils.antt =====
-- src/server/utils.c: the byte order of a 64-bit number, on the little-endian machine that the server
-- is built for, and how a number lies in memory there.
pub mod Bits
pub mod Words
pub mod Order
use Prim.Native.Nat.{bit_and, bit_or}
use bsle.Prelude.{ℕ, zero, suc, ◌+◌, ◌*◌, ◌/◌, ◌%◌, ◌^◌, [], ◌∷◌, ◌++◌, Bytes}

-- `swap_byte_order`, its shifts in 64 bits.
unfoldable pub swap_byte_order : ℕ → ℕ
swap_byte_order val =
    let a =
      bit_or (bit_and (val * 2 ^ 8 % 2 ^ 64) 0xFF00FF00FF00FF00)
        (bit_and (val / 2 ^ 8) 0x00FF00FF00FF00FF) in
    let b =
      bit_or (bit_and (a * 2 ^ 16 % 2 ^ 64) 0xFFFF0000FFFF0000)
        (bit_and (a / 2 ^ 16) 0x0000FFFF0000FFFF) in
    bit_or (b * 2 ^ 32 % 2 ^ 64) (b / 2 ^ 32)

pub htonll : ℕ → ℕ
unfolding swap_byte_order
htonll val = swap_byte_order val

pub ntohll : ℕ → ℕ
unfolding swap_byte_order
ntohll val = swap_byte_order val

-- The `n` bytes of a number in memory, lowest first, and the number in such bytes.
pub le_bytes : ℕ → ℕ → Bytes
le_bytes zero x = []
le_bytes (suc n) x = x % 256 ∷ le_bytes n (x / 256)

pub le_value : Bytes → ℕ
le_value [] = 0
le_value (b ∷ s) = b + 256 * le_value s

-- The same in network order, highest first: what `htons` and `htonl` leave in memory, and what
-- `ntohs` and `ntohl` make of it.
pub be_bytes : ℕ → ℕ → Bytes
be_bytes zero x = []
be_bytes (suc n) x = be_bytes n (x / 256) ++ x % 256 ∷ []

pub be_value : ℕ → Bytes → ℕ
be_value acc [] = acc
be_value acc (b ∷ s) = be_value (acc * 256 + b) s
