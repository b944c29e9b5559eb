-- ===== src/Db/Codec/Writer.antt =====
-- The buffer that db_update_db of src/server/server_db.c fills.
use bsle.Prelude.{
  ℕ, ◌+◌, ◌-◌, ◌*◌, ◌≤◌, ◌≡◌, ap, ◌∙◌, List, [], ◌∷◌, ◌++◌, append_assoc, append-nil, arith, Bytes,
  length, length-append, take-length-append, ok, le→leb, All,
}
use bsle.Server.{UserAccount}
use bsle.Db.Codec.{magic_bytes, count_chars, write_rows, db_bytes}
use bsle.Db.Codec.Rows.{IsWritable, row, length-row, hash_text-print_b_array, row_text-row}

-- The text of all accounts.
abbrev pub rows : List UserAccount → Bytes
rows [] = []
rows (a ∷ l) = row a ++ rows l

count_chars-rows :
    (l : List UserAccount) (n : ℕ)
    → All IsWritable l
    → count_chars l n ≡ n + length (rows l) + length l
unfolding count_chars
count_chars-rows [] n h = omega arith
count_chars-rows (a ∷ l) n h = omega (
  arith,
  count_chars-rows l (n + length a.username + a.hash.size * 2 + 5) h.1,
  length-append (row a) (rows l),
  length-row a h.0,
  h.0.sized,
)

write_rows-rows :
    (size : ℕ) (l : List UserAccount) (text : Bytes)
    → All IsWritable l
    → length text + length (rows l) + length l ≤ size
    → write_rows size l text ≡ ok (text ++ rows l)
unfolding write_rows
write_rows-rows size [] text h f = rw append-nil
write_rows-rows size (a ∷ l) text h f =
    let len = length-append (row a) (rows l) in
    let room : length text + length (row a) + 1 ≤ size = omega (arith, f, len) in
    let len' = length-append text (row a) in
    rw (hash_text-print_b_array a.hash h.0.sized h.0.full) (
      rw (row_text-row a h.0) (
        rw (le→leb _ _ room) (
          write_rows-rows size l (text ++ row a) h.1 (omega (arith, f, len, len'))
          ∙ ap ok (append_assoc text (row a) (rows l)))))

-- For accounts with a permission of one digit and a hash of 32 bytes `db_update_db` stays inside the buffer that it reserved, and what it writes is
-- the magic bytes and the rows, with nothing cut off and nothing added.
pub db_bytes-rows :
    (l : List UserAccount) → All IsWritable l → db_bytes l ≡ ok (magic_bytes ++ rows l)
unfolding db_bytes
db_bytes-rows l h =
    let size = count_chars-rows l 4 h in
    let text = magic_bytes ++ rows l in
    let kept : count_chars l 4 - length l ≡ length text = omega (arith, size) in
    rw (write_rows-rows (count_chars l 4) l magic_bytes h (omega (arith, size)))
      (rw kept (ap ok (take-length-append text _)))
