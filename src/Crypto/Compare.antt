-- ===== src/Crypto/Compare.antt =====
-- hash_compare, hash_bytes_match, hash_hash_t_match and hash_byte_array of src/server/server_crypto.c.
use bsle.Prelude.{
  ℕ, zero, suc, ◌≡◌, refl, true, some, [], ◌∷◌, ◌++◌, arith, Bytes, length, ok, eq_bytes,
  eq_bytes→eq, ap, Mem,
}
use bsle.Server.{Hash}
use bsle.Crypto.{
  read_at, compare_from, Sha256, hash_byte_array, hash_compare, hash_bytes_match, hash_hash_t_match,
  match_from,
}

-- The size is that of the array.
abbrev pub IsSized : Hash → Type 0
IsSized h = h.size ≡ length h.array

compare_from-cons :
    (a b : ℕ) (l r : Bytes) (i n : ℕ)
    → compare_from (a ∷ l) (b ∷ r) (suc i) n ≡ compare_from l r i n
unfolding compare_from read_at
compare_from-cons a b l r i zero = refl
compare_from-cons a b l r i (suc n) = ground (arith, compare_from-cons a b l r (suc i) n)

compare_from-eq_bytes :
    (l r : Bytes) → length l ≡ length r → compare_from l r 0 (length l) ≡ ok (eq_bytes l r)
unfolding compare_from read_at
compare_from-eq_bytes [] [] h = refl
compare_from-eq_bytes [] (y ∷ r) h = absurd (omega arith)
compare_from-eq_bytes (x ∷ l) [] h = absurd (omega arith)
compare_from-eq_bytes (x ∷ l) (y ∷ r) h =
    ground (arith, compare_from-cons x y l r 0 (length l), compare_from-eq_bytes l r (omega arith))

pub eq_bytes-length : (l r : Bytes) → eq_bytes l r ≡ true → length l ≡ length r
eq_bytes-length l r h = ap length (eq_bytes→eq l r h)

pub hash_compare-eq_bytes :
    (l r : Bytes) → length l ≡ length r → hash_compare l r (length l) ≡ ok (eq_bytes l r)
unfolding hash_compare
hash_compare-eq_bytes l r h = compare_from-eq_bytes l r h

-- Two digests whose sizes are those of their arrays match exactly when the arrays are equal; the
-- comparison reads nothing outside them.
pub hash_hash_t_match-eq_bytes :
    (l r : Hash)
    → IsSized l
    → IsSized r
    → hash_hash_t_match (some l) (some r) ≡ ok (eq_bytes l.array r.array)
unfolding hash_hash_t_match
hash_hash_t_match-eq_bytes l r hl hr =
    ground (arith, hash_compare-eq_bytes l.array r.array, eq_bytes-length l.array r.array)

-- A digest whose size is that of its array matches a byte string of the given size exactly when
-- the two are equal; the comparison reads nothing outside them.
pub hash_bytes_match-eq_bytes :
    (h : Hash) (a : Bytes)
    → IsSized h
    → hash_bytes_match (some h) (some a) (length a) ≡ ok (eq_bytes h.array a)
unfolding hash_bytes_match
hash_bytes_match-eq_bytes h a hh =
    ground (arith, hash_compare-eq_bytes h.array a, eq_bytes-length h.array a)

match_from-cons :
    (a b : ℕ) (l r : Bytes) (i n : ℕ) → match_from (a ∷ l) (b ∷ r) (suc i) n ≡ match_from l r i n
unfolding match_from read_at
match_from-cons a b l r i zero = refl
match_from-cons a b l r i (suc n) = ground (arith, match_from-cons a b l r (suc i) n)

match_from-prefix : (l r : Bytes) → match_from l (l ++ r) 0 (length l) ≡ ok true
unfolding match_from read_at
match_from-prefix [] r = refl
match_from-prefix (x ∷ l) r =
    ground (arith, match_from-cons x x l (l ++ r) 0 (length l), match_from-prefix l r)

-- Hashing gives the digest, or nothing when memory runs out.
pub hash_byte_array-digest :
    (sha : Sha256) (mem : Mem) (s : Bytes) (len : ℕ)
    → mem 0 ≡ true
    → mem 1 ≡ true
    → hash_byte_array sha mem (some s) len ≡ some (record { size = 32; array = sha.digest s })
unfolding hash_byte_array
hash_byte_array-digest sha mem s len m0 m1 = rw (m0, m1)

pub hash_byte_array-some :
    (sha : Sha256) (mem : Mem) (s : Bytes) (len : ℕ) {h : Hash}
    → hash_byte_array sha mem (some s) len ≡ some h
    → h ≡ record { size = 32; array = sha.digest s }
unfolding hash_byte_array
hash_byte_array-some sha mem s len e = ground arith
