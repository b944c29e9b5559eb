-- ===== src/Db/Codec/Rows.antt =====
-- One row of the database text of src/server/server_db.c.
use bsle.Prelude.{
  Option, some, Bool-cases, inl, inr, fault, stuck, ==_ne, ◌==◌, ◌>>=◌, ℕ, zero, suc, ◌+◌, ◌%◌, ◌≤◌,
  ◌<◌, ◌≡◌, ◌≢◌, refl, ap, sym, ◌∙◌, some, [], ◌∷◌, ◌++◌, append_assoc, append-nil, arith, Bytes,
  length, length-append, take_all, ok, All, All-append, Lacks, IsByte,
}
use bsle.Server.{Hash, UserAccount}
use bsle.Crypto.{print_b_array}
use bsle.Crypto.Hex.{print_b_array-Lacks, length-print_b_array}
use bsle.Decimal.{print_dec}
use bsle.Db.Codec.{
  hash_text, row_text, scan_set, scan_perm, scan_row, row_read, c_string, string_at, row_at,
  next_segment, scan_hash,
}

-- An account whose row can be read back: a name of 1 to 20 bytes that are neither a colon, nor a
-- newline, nor 0; a permission of one digit; a digest of 32 bytes.
pub record IsStorable (a : UserAccount) : Type 0 where
  pub named : a.username ≢ []
  pub short : length a.username ≤ 20
  pub no_colon : Lacks b':' a.username
  pub no_newline : Lacks b'\n' a.username
  pub no_nul : Lacks 0 a.username
  pub one_digit : a.permission < 10
  pub sized : a.hash.size ≡ 32
  pub full : length a.hash.array ≡ 32
  pub bytes : All IsByte a.hash.array

-- An account whose row fits: a permission of one digit, and a digest of 32 bytes.
pub record IsWritable (a : UserAccount) : Type 0 where
  pub one_digit : a.permission < 10
  pub sized : a.hash.size ≡ 32
  pub full : length a.hash.array ≡ 32

pub IsStorable-IsWritable : (a : UserAccount) → IsStorable a → IsWritable a
IsStorable-IsWritable a h = record { one_digit = h.one_digit; sized = h.sized; full = h.full }

-- The text of such an account, newline included.
abbrev pub row : UserAccount → Bytes
row a =
    a.username ++ b':' ∷ (b'0' + a.permission) ∷ b':' ∷ (print_b_array a.hash.array ++ b'\n' ∷ [])

print_dec_digit : (p : ℕ) → p < 10 → print_dec (p % 256) ≡ (b'0' + p) ∷ []
unfolding print_dec
print_dec_digit p h = ground arith

pub hash_text-print_b_array :
    (h : Hash) → h.size ≡ 32 → length h.array ≡ 32 → hash_text h ≡ ok (print_b_array h.array)
unfolding hash_text
hash_text-print_b_array h s f = ground (arith, take_all h.size h.array (omega arith))

pub row_text-row :
    (a : UserAccount)
    → IsWritable a
    → row_text a.username a.permission (print_b_array a.hash.array) ≡ row a
unfolding row_text
row_text-row a h = rw (print_dec_digit a.permission h.one_digit)

pub length-row : (a : UserAccount) → IsWritable a → length (row a) ≡ length a.username + 68
length-row a h = omega (
  arith,
  length-append a.username
      (b':' ∷ (b'0' + a.permission) ∷ b':' ∷ (print_b_array a.hash.array ++ b'\n' ∷ [])),
  length-append (print_b_array a.hash.array) (b'\n' ∷ []),
  length-print_b_array a.hash.array,
  h.full,
)

pub scan_set-token :
    (n x : ℕ) (token s : Bytes)
    → Lacks x token
    → length token ≤ n
    → scan_set n x (token ++ x ∷ s) ≡ (token, x ∷ s)
unfolding scan_set
scan_set-token zero x [] s h f = refl
scan_set-token zero x (c ∷ token) s h f = absurd (omega arith)
scan_set-token (suc n) x [] s h f = ground arith
scan_set-token (suc n) x (c ∷ token) s h f =
    ground (arith, scan_set-token n x token s h.1 (omega arith))

scan_perm_digit :
    (p : ℕ) (s : Bytes) → p < 10 → scan_perm ((b'0' + p) ∷ b':' ∷ s) ≡ some (p, b':' ∷ s)
unfolding scan_perm
scan_perm_digit p s h = ground arith

pub c_string_lem : (s : Bytes) → Lacks 0 s → c_string s ≡ s
unfolding c_string
c_string_lem [] h = refl
c_string_lem (c ∷ s) h = ground (arith, c_string_lem s h.1)

-- What a string in a block that goes on with `s` is, behind characters that are not 0.
pub string_at-append :
    (behind : Option Bytes) (a s : Bytes)
    → Lacks 0 a
    → string_at behind (a ++ s) ≡ (string_at behind s >>= λ t. ok (a ++ t))
unfolding string_at
string_at-append behind [] s h = elim (string_at behind s) as (λ r. r ≡ (r >>= λ t. ok t)) [
  | ok t ↦ refl
  | fault ↦ refl
  | stuck ↦ refl
]
string_at-append behind (c ∷ a) s h = rw (string_at-append behind a s h.1) (
    rw (==_ne c 0 h.0)
      (elim (string_at behind s)
        as (λ r.
          (r >>= (λ t. ok (a ++ t)) >>= (λ t. ok (c ∷ t))) ≡ (r >>= λ t. ok (c ∷ (a ++ t)))) [
            | ok t ↦ refl
            | fault ↦ refl
            | stuck ↦ refl
          ]))

-- Where memory holds a 0 behind the block, every place in it is a string.
pub string_at_ends : (tail s : Bytes) → (t : Bytes) × (string_at (some tail) s ≡ ok t)
unfolding string_at
string_at_ends tail [] = (tail, refl)
string_at_ends tail (c ∷ s) =
    let (t, e) = string_at_ends tail s in
    elim (Bool-cases (c == 0)) [
      | inl nul ↦ ([], rw nul refl)
      | inr char ↦ (c ∷ t, rw char (rw e refl))
    ]

next_segment-append :
    (n : ℕ) (a s : Bytes)
    → Lacks b'\n' a
    → length a < n
    → next_segment n (a ++ b'\n' ∷ s) ≡ ok (some s)
unfolding next_segment
next_segment-append zero a s h f = elim f [ ]
next_segment-append (suc n) [] s h f = ground arith
next_segment-append (suc n) (c ∷ a) s h f =
    ground (arith, next_segment-append n a s h.1 (omega arith))

scan_hash-row :
    (name : Bytes) (p : ℕ) (h s : Bytes)
    → h ≢ []
    → Lacks b'\n' h
    → length h ≤ 64
    → scan_hash name p (b':' ∷ (h ++ b'\n' ∷ s)) ≡ row_read name p h
unfolding scan_hash
scan_hash-row name p [] s ne l f = absurd (ne refl)
scan_hash-row name p (c ∷ h) s ne l f = rw (scan_set-token 64 b'\n' (c ∷ h) s l f)

scan_row-parts :
    (name : Bytes) (p : ℕ) (h s : Bytes)
    → name ≢ []
    → Lacks b':' name
    → length name ≤ 20
    → p < 10
    → h ≢ []
    → Lacks b'\n' h
    → length h ≤ 64
    → scan_row (name ++ b':' ∷ (b'0' + p) ∷ b':' ∷ (h ++ b'\n' ∷ s)) ≡ row_read name p h
unfolding scan_row
scan_row-parts [] p h s ne l f hp hne hl hf = absurd (ne refl)
scan_row-parts (c ∷ name) p h s ne l f hp hne hl hf =
    rw (scan_set-token 20 b':' (c ∷ name) ((b'0' + p) ∷ b':' ∷ (h ++ b'\n' ∷ s)) l f)
      (rw (scan_perm_digit p (h ++ b'\n' ∷ s) hp) (scan_hash-row (c ∷ name) p h s hne hl hf))

module _ (a : UserAccount) (safe : IsStorable a) where
  length_hex : length (print_b_array a.hash.array) ≡ 64
  length_hex = omega (arith, length-print_b_array a.hash.array, safe.full)

  -- Everything of the row but its newline.
  abbrev line : Bytes
  line = a.username ++ b':' ∷ (b'0' + a.permission) ∷ b':' ∷ print_b_array a.hash.array

  row-line : (s : Bytes) → row a ++ s ≡ line ++ b'\n' ∷ s
  row-line s = simp append_assoc

  row-append :
      (s : Bytes)
      → row a ++ s
        ≡ a.username
          ++ b':' ∷ (b'0' + a.permission) ∷ b':' ∷ (print_b_array a.hash.array ++ b'\n' ∷ s)
  row-append s = simp append_assoc

  row-line-nil : row a ≡ line ++ b'\n' ∷ []
  row-line-nil = sym (append-nil (row a)) ∙ row-line []

  row-length-line : length (row a) ≡ length line + 1
  row-length-line = ap length row-line-nil ∙ length-append line (b'\n' ∷ [])

  hex-ne-nil : print_b_array a.hash.array ≢ []
  hex-ne-nil e = absurd (omega (arith, length_hex, ap length e))

  line-Lacks : Lacks b'\n' line
  line-Lacks =
      All-append _ a.username _ safe.no_newline (
        omega arith,
        (ground arith, (omega arith, (print_b_array-Lacks a.hash.array safe.bytes).0)),
      )

  row-Lacks : Lacks 0 (row a)
  row-Lacks = All-append _ a.username _ safe.no_nul (
    omega arith,
    (
      ground arith,
      (
        omega arith,
        All-append _ (print_b_array a.hash.array) (b'\n' ∷ [])
            (print_b_array-Lacks a.hash.array safe.bytes).1 (omega arith, tt),
      ),
    ),
  )

  scan_row-row :
      (s : Bytes)
      → scan_row (row a ++ s) ≡ row_read a.username a.permission (print_b_array a.hash.array)
  scan_row-row s = rw (row-append s) (
      scan_row-parts a.username a.permission (print_b_array a.hash.array) s safe.named safe.no_colon
        safe.short safe.one_digit hex-ne-nil (print_b_array-Lacks a.hash.array safe.bytes).0
        (omega (arith, length_hex)))

  pub row_at-row :
      (tail s : Bytes)
      → row_at (some tail) (row a ++ s)
        ≡ ok (row_read a.username a.permission (print_b_array a.hash.array))
  unfolding row_at
  row_at-row tail s =
      let (t, e) = string_at_ends tail s in
      rw (string_at-append (some tail) (row a) s row-Lacks) (rw e (rw (scan_row-row t) refl))

  pub next_segment-row :
      (n : ℕ) (s : Bytes) → length (row a) ≤ n → next_segment n (row a ++ s) ≡ ok (some s)
  next_segment-row n s h =
      rw (row-line s) (next_segment-append n line s line-Lacks (omega (arith, h, row-length-line)))
