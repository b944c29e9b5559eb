-- ===== src/Crypto.antt =====
-- src/server/server_crypto.c: hashing, comparing hashes, and reading a hash from hexadecimal text.
-- A `hash_t` that may be NULL is an `Option`. A byte of text is a number; a C string is the bytes in
-- front of its terminator.
pub mod Compare
pub mod Hex
use bsle.Prelude.{
  ℕ, zero, suc, ◌+◌, ◌-◌, ◌*◌, ◌/◌, ◌%◌, Bool, true, false, ◌&&◌, ◌||◌, Option, none, some, [], ◌∷◌,
  ◌++◌, ◌≡◌, Bytes, length, get_elem?, drop, Run, ok, fault, stuck, ◌>>=◌, Mem, ltb, leb, ◌==◌,
  if◌then◌else◌, All, IsByte,
}
use bsle.Server.{Hash, sha256_digest_length}

-- OpenSSL's `SHA256`, which returns its output buffer, never NULL when it is given one: a digest
-- of 32 bytes for every byte string.
pub record Sha256 : Type 0 where
  pub digest : Bytes → Bytes
  pub length-digest : (s : Bytes) → length (digest s) ≡ 32
  pub digest-IsByte : (s : Bytes) → All IsByte (digest s)

-- `array[i]`; reading behind the end is a fault.
pub read_at : Bytes → ℕ → Run ℕ
read_at xs i = elim (get_elem? xs i) [ none ↦ fault | some x ↦ ok x ]

-- The loop of `hash_compare` with `n` rounds left.
compare_from : Bytes → Bytes → ℕ → ℕ → Run Bool
compare_from l r i zero = ok true
compare_from l r i (suc n) =
    let rest = compare_from l r (suc i) n in
    (do x ← read_at l i; y ← read_at r i; (if x == y then rest else ok false))

unfoldable pub hash_compare : Bytes → Bytes → ℕ → Run Bool
unfolding compare_from read_at
hash_compare l r size = compare_from l r 0 size

pub hash_bytes_match : Option Hash → Option Bytes → ℕ → Run Bool
hash_bytes_match none a size = ok false
hash_bytes_match (some h) none size = ok false
hash_bytes_match (some h) (some a) size =
    if h.size == size then hash_compare h.array a size else ok false

unfoldable pub hash_hash_t_match : Option Hash → Option Hash → Run Bool
hash_hash_t_match none r = ok false
hash_hash_t_match (some l) none = ok false
hash_hash_t_match (some l) (some r) =
    if r.size == l.size then hash_compare l.array r.array l.size else ok false

-- The allocations are the digest's array and the `hash_t`.
unfoldable pub hash_byte_array : Sha256 → Mem → Option Bytes → ℕ → Option Hash
hash_byte_array sha mem none len = none
hash_byte_array sha mem (some s) len =
    if mem 0
    then (if mem 1
        then some (record { size = sha256_digest_length; array = sha.digest s })
        else none)
    else none

-- `isspace` in the C locale.
pub is_space : ℕ → Bool
is_space c = c == 32 || (leb 9 c && leb c 13)

unfoldable pub skip_space : Bytes → Bytes
unfolding is_space
skip_space [] = []
skip_space (c ∷ s) = if is_space c then skip_space s else c ∷ s

-- The value of a hexadecimal digit.
pub hex_value : ℕ → Option ℕ
hex_value c =
    if leb b'0' c && leb c b'9'
    then some (c - b'0')
    else if leb b'a' c && leb c b'f'
    then some (c - b'a' + 10)
    else if leb b'A' c && leb c b'F'
    then some (c - b'A' + 10)
    else none

-- What one `sscanf(s, "%2hhx", &byte)` returns: EOF, 0, or 1 with the byte stored.
pub data ScanHex : Type 0 where
  scan_eof scan_none : ScanHex
  scan_byte : ℕ → ScanHex

-- One digit, and a second if it is one; `0x` alone reads as 0.
scan_digits : Bytes → ScanHex
unfolding hex_value
scan_digits [] = scan_none
scan_digits (c ∷ []) = elim (hex_value c) [ none ↦ scan_none | some x ↦ scan_byte x ]
scan_digits (c ∷ d ∷ s) = elim (hex_value c) [
  | none ↦ scan_none
  | some x ↦ elim (hex_value d) [ none ↦ scan_byte x | some y ↦ scan_byte (16 * x + y) ]
]

-- A sign takes one of the two places.
scan_signed : Bytes → ScanHex
unfolding scan_digits
scan_signed [] = scan_eof
scan_signed (c ∷ []) = if c == b'-' || c == b'+' then scan_none else scan_digits (c ∷ [])
scan_signed (c ∷ d ∷ s) =
    if c == b'-'
    then elim (hex_value d) [ none ↦ scan_none | some x ↦ scan_byte ((256 - x) % 256) ]
    else if c == b'+'
    then scan_digits (d ∷ [])
    else scan_digits (c ∷ d ∷ s)

unfoldable pub scan_hex : Bytes → ScanHex
unfolding scan_signed skip_space
scan_hex s = scan_signed (skip_space s)

-- The `while` loop of `hex_char_to_byte_array` on fuel; `done` is what is stored so far. A result
-- that is neither 1 nor EOF makes another round at the same place. `none` is the error exit.
hex_loop : ℕ → Bytes → ℕ → ℕ → Bytes → Run (Option Bytes)
hex_loop zero s size idx done = stuck
hex_loop (suc fuel) s size idx done =
    let again = hex_loop fuel s size idx done in
    let next = λ (b : ℕ). hex_loop fuel s size (idx + 2) (done ++ b ∷ []) in
    if ltb idx size
    then elim (scan_hex (drop idx s)) [
      | scan_eof ↦ ok none
      | scan_none ↦ again
      | scan_byte b ↦ next b
    ]
    else ok (some done)

finish_hash : Mem → ℕ → Option Bytes → Option Hash
finish_hash mem size none = none
finish_hash mem size (some bytes) =
    if mem 1 then some (record { size = size / 2; array = bytes }) else none

-- The allocations are the byte array and the `hash_t`.
pub hex_char_to_byte_array : Mem → ℕ → Option Bytes → ℕ → Run (Option Hash)
unfolding hex_loop scan_hex finish_hash
hex_char_to_byte_array mem fuel none size = ok none
hex_char_to_byte_array mem fuel (some s) size =
    if size == 0
    then ok none
    else if size % 2 == 1
    then ok none
    else if mem 0
    then (do r ← hex_loop fuel s size 0 []; ok (finish_hash mem size r))
    else ok none

-- The loop of `hash_pass_match` with `n` rounds left: only as many bytes as the text gave.
match_from : Bytes → Bytes → ℕ → ℕ → Run Bool
unfolding read_at
match_from pw h i zero = ok true
match_from pw h i (suc n) =
    let rest = match_from pw h (suc i) n in
    (do x ← read_at pw i; y ← read_at h i; (if x == y then rest else ok false))

pub hash_pass_match : Mem → ℕ → Option Hash → Option Bytes → ℕ → Run Bool
unfolding match_from hex_char_to_byte_array
hash_pass_match mem fuel none s len = ok false
hash_pass_match mem fuel (some h) none len = ok false
hash_pass_match mem fuel (some h) (some s) len =
    hex_char_to_byte_array mem fuel (some s) len >>= λ p. elim p [
      | none ↦ ok false
      | some pw ↦ match_from pw.array h.array 0 pw.size
    ]

pub hex_digit : ℕ → ℕ
hex_digit n = if ltb n 10 then b'0' + n else b'a' + (n - 10)

-- The text that `printf("%02x")` makes of each byte in turn.
pub print_b_array : Bytes → Bytes
unfolding hex_digit
print_b_array [] = []
print_b_array (b ∷ bs) = hex_digit (b / 16) ∷ hex_digit (b % 16) ∷ print_b_array bs
