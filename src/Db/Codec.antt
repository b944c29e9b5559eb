-- ===== src/Db/Codec.antt =====
-- src/server/server_db.c, the formats: the text of an account, the buffer that `db_update_db` writes,
-- and the reader `populate_htable`. `p_stream` is followed by a byte that ends the text: the reader
-- hands it to `sscanf` as a C string.
pub mod Rows
pub mod Writer
pub mod Colon
pub mod Stored
pub mod RoundTrip
use bsle.Prelude.{
  ℕ, zero, suc, ◌+◌, ◌-◌, ◌*◌, ◌%◌, ◌^◌, ◌≡◌, Bool, true, false, ◌&&◌, ◌||◌, Option, none, some,
  List, [], ◌∷◌, ◌++◌, Bytes, codes, length, take, drop, replicate, Run, ok, fault, stuck, ◌>>=◌,
  Mem, later, ltb, leb, ◌==◌, eq_bytes, if◌then◌else◌,
}
use bsle.Server.{Hash, UserAccount, max_username_len, sha256_digest_len, sha256_digest_length}
use bsle.Crypto.{print_b_array, hex_char_to_byte_array, skip_space}
use bsle.Decimal.{print_dec, is_digit, read_digits}
use bsle.Table.{Table}

-- MAGIC_BYTES as it lies in memory, lowest byte first.
abbrev pub magic_bytes : Bytes
magic_bytes = 0xBA ∷ 0xFA ∷ 0xAA ∷ 0xFF ∷ []

abbrev pub default_user : Bytes
default_user = codes "admin"

abbrev pub default_hash : Bytes
default_hash = codes "5e884898da28047151d0e56f8dc6292773603d0d6aabbdd62a11ef721d1542d8"

-- The digest as text, in an array of 65 bytes.
pub hash_text : Hash → Run Bytes
hash_text h =
    if leb h.size (length h.array) && leb (2 * h.size) sha256_digest_len
    then ok (print_b_array (take h.size h.array))
    else fault

-- `"%s:%hhu:%s\n"`
pub row_text : Bytes → ℕ → Bytes → Bytes
row_text name perm hash = name ++ b':' ∷ (print_dec (perm % 256) ++ b':' ∷ (hash ++ b'\n' ∷ []))

-- The first loop of `db_update_db`: the bytes that it reserves.
pub count_chars : List UserAccount → ℕ → ℕ
count_chars [] char_count = char_count
count_chars (a ∷ rest) char_count =
    count_chars rest (char_count + length a.username + a.hash.size * 2 + 5)

-- The second loop: each row goes behind the others, with a terminator, in a buffer of `size` bytes.
pub write_rows : ℕ → List UserAccount → Bytes → Run Bytes
unfolding hash_text row_text
write_rows size [] text = ok text
write_rows size (a ∷ rest) text = do
  pw_hash ← hash_text a.hash
  let row = row_text a.username a.permission pw_hash
  (if leb (length text + length row + 1) size then write_rows size rest (text ++ row) else fault)

-- What `db_update_db` hands to `f_write_file`: the buffer less one byte for each account.
pub db_bytes : List UserAccount → Run Bytes
unfolding write_rows
db_bytes accounts = do
  let char_count = count_chars accounts 4
  text ← write_rows char_count accounts magic_bytes
  ok (take (char_count - length accounts) (text ++ replicate (char_count - length text) 0))

pub verify_magic : Option (Bytes × ℕ) → Bool
verify_magic none = false
verify_magic (some (stream, size)) =
    if ltb size 4 then false else eq_bytes (take 4 stream) magic_bytes

-- `get_stored_data`: the stream behind the magic bytes, and its size; `none` is a return of false.
pub get_stored_data : Mem → Option (Bytes × ℕ) → Option (Bytes × ℕ)
unfolding verify_magic
get_stored_data mem none = none
get_stored_data mem (some (stream, size)) =
    if verify_magic (some (stream, size))
    then (if mem 0 then some (take (size - 4) (drop 4 stream), size - 4) else none)
    else none

pub get_stored_hash : Mem → Option (Bytes × ℕ) → Option (Bytes × ℕ)
unfolding get_stored_data
get_stored_hash mem none = none
get_stored_hash mem (some (stream, size)) =
    if verify_magic (some (stream, size))
    then (if size == sha256_digest_length + 4
        then get_stored_data mem (some (stream, size))
        else none)
    else none

-- The bytes of a C string that lies in a longer array.
pub c_string : Bytes → Bytes
c_string [] = []
c_string (c ∷ s) = if c == 0 then [] else c ∷ c_string s

-- The C string at a place in a block that need not hold a 0: it may go on behind the block.
unfoldable pub string_at : Option Bytes → Bytes → Run Bytes
string_at none [] = fault
string_at (some tail) [] = ok tail
string_at behind (c ∷ s) =
    let rest = string_at behind s in if c == 0 then ok [] else rest >>= λ t. ok (c ∷ t)

-- `%n[^x]`: up to `n` characters that are not `x`, and what is left.
pub scan_set : ℕ → ℕ → Bytes → Bytes × Bytes
scan_set zero x s = ([], s)
scan_set (suc n) x [] = ([], [])
scan_set (suc n) x (c ∷ s) =
    let (token, rest) = scan_set n x s in if c == x then ([], c ∷ s) else (c ∷ token, rest)

-- The value that `strtoul` gives, as an unsigned char; too large a number is ULONG_MAX.
to_uchar : Bool → ℕ → ℕ
to_uchar true v = if ltb v (2 ^ 64) then (2 ^ 64 - v) % 256 else 255
to_uchar false v = if ltb v (2 ^ 64) then v % 256 else 255

scan_unsigned : Bool → Bytes → Option (ℕ × Bytes)
unfolding is_digit read_digits to_uchar
scan_unsigned negative [] = none
scan_unsigned negative (c ∷ s) =
    let (v, rest) = read_digits (c ∷ s) 0 in
    if is_digit c then some (to_uchar negative v, rest) else none

scan_sign : Bytes → Option (ℕ × Bytes)
unfolding scan_unsigned
scan_sign [] = none
scan_sign (c ∷ s) =
    if c == b'-'
    then scan_unsigned true s
    else if c == b'+'
    then scan_unsigned false s
    else scan_unsigned false (c ∷ s)

pub scan_perm : Bytes → Option (ℕ × Bytes)
unfolding scan_sign skip_space
scan_perm s = scan_sign (skip_space s)

-- What `sscanf` of one row returns: EOF, fewer than three items, or three.
pub data ScanRow : Type 0 where
  row_eof row_bad : ScanRow
  row_read : Bytes → ℕ → Bytes → ScanRow

read_hash : Bytes → ℕ → Bytes → ScanRow
read_hash name perm [] = row_bad
read_hash name perm (d ∷ hash) = row_read name perm (d ∷ hash)

scan_hash : Bytes → ℕ → Bytes → ScanRow
unfolding scan_set read_hash
scan_hash name perm [] = row_bad
scan_hash name perm (c ∷ s) =
    if c == b':' then read_hash name perm (scan_set sha256_digest_len b'\n' s).0 else row_bad

scan_rest : Bytes × Bytes → ScanRow
unfolding scan_perm scan_hash
scan_rest ([], s) = row_bad
scan_rest (n ∷ name, []) = row_bad
scan_rest (n ∷ name, c ∷ s) =
    if c == b':'
    then elim (scan_perm s) [ none ↦ row_bad | some (perm, r) ↦ scan_hash (n ∷ name) perm r ]
    else row_bad

-- `sscanf(segment, "%20[^:]:%hhu:%64[^\n]", …)`
pub scan_row : Bytes → ScanRow
unfolding scan_rest scan_set
scan_row [] = row_eof
scan_row (c ∷ s) = scan_rest (scan_set max_username_len b':' (c ∷ s))

-- The row at a place in a block.
pub row_at : Option Bytes → Bytes → Run ScanRow
unfolding scan_row string_at
row_at behind segment = string_at behind segment >>= λ text. ok (scan_row text)

-- `memchr(segment, '\n', n) + 1`: `none` is the pointer made from NULL.
pub next_segment : ℕ → Bytes → Run (Option Bytes)
next_segment zero s = ok none
next_segment (suc n) [] = fault
next_segment (suc n) (c ∷ s) = if c == b'\n' then ok (some s) else next_segment n s

-- The rounds that the loop of `hex_char_to_byte_array` can need on 64 characters, unless it has none
-- that ends.
abbrev pub hex_fuel : ℕ
hex_fuel = 33

module _ (table : Table Bytes UserAccount eq_bytes) (behind : Option Bytes) where
  open table use {T, set}

  -- The rest of a round, with the row read: the hash takes two allocations, then come the copy of the
  -- name and the account. `none` is the error exit.
  pub add_row : Mem → T → Bytes → ℕ → Bytes → Run (Option T)
  add_row mem t name perm pw_hash =
      hex_char_to_byte_array mem hex_fuel (some pw_hash) (length pw_hash) >>= λ h. elim h [
        | none ↦ ok none
        | some hash ↦
            if mem 2
            then (if mem 3
                then ok
                    (some (set t name (record { username = name; permission = perm; hash = hash })))
                else ok none)
            else ok none
      ]

  -- The loop of `populate_htable`, a round for each row.
  pub populate_loop : ℕ → Mem → T → Option Bytes → ℕ → ℕ → Run (Option T)
  unfolding row_at add_row next_segment
  populate_loop zero mem t segment size total = stuck
  populate_loop (suc fuel) mem t none size total = if ltb total size then fault else ok (some t)
  populate_loop (suc fuel) mem t (some segment) size total = elim (ltb total size) [
    | false ↦ ok (some t)
    | true ↦ row_at behind segment >>= λ row. elim row [
      | row_eof ↦ ok (some t)
      | row_bad ↦ ok none
      | row_read name perm pw_hash ↦ add_row mem t name perm pw_hash >>= λ added. elim added [
        | none ↦ ok none
        | some t' ↦ next_segment size segment >>= λ next.
            populate_loop fuel (later 4 mem) t' next size (total + 4 + length name + length pw_hash)
      ]
    ]
  ]

  -- `none` is a return of -1.
  pub populate_htable : ℕ → Mem → T → Bytes → ℕ → Run (Option T)
  unfolding populate_loop
  populate_htable fuel mem t stream size = populate_loop fuel mem t (some stream) size 0
