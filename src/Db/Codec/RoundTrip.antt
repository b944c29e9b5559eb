-- ===== src/Db/Codec/RoundTrip.antt =====
-- The database text of src/server/server_db.c as a whole: db_update_db and populate_htable.
use bsle.Prelude.{
  All-map, ℕ, zero, suc, ◌+◌, ◌-◌, ◌<◌, ◌≡◌, refl, ap, sym, ◌∙◌, true, false, Option, none, some,
  List, [], ◌∷◌, ◌++◌, arith, Bytes, length, length-append, take_all, ok, Mem, later, ltb, lt→ltb,
  le→ltb, All, eq_bytes, eq_bytes→eq, Bool-cases, ◌⊎◌, inl, inr, map,
}
use bsle.Server.{UserAccount}
use bsle.Crypto.{print_b_array}
use bsle.Crypto.Hex.{length-print_b_array, hex_char_to_byte_array-print_b_array}
use bsle.Table.{Table, Fresh, find}
use bsle.Db.Codec.{
  magic_bytes, db_bytes, add_row, populate_loop, row_read, row_at, next_segment, populate_htable,
  verify_magic, get_stored_data,
}
use bsle.Db.Codec.Writer.{rows, db_bytes-rows}
use bsle.Db.Codec.Rows.{
  IsStorable, IsWritable, IsStorable-IsWritable, row, length-row, row_at-row, next_segment-row,
}

-- The magic bytes are taken off again, when the one allocation succeeds.
pub get_stored_data_magic :
    (mem : Mem) (s : Bytes)
    → mem 0 ≡ true
    → get_stored_data mem (some (magic_bytes ++ s, length (magic_bytes ++ s))) ≡ some (s, length s)
unfolding get_stored_data verify_magic
get_stored_data_magic mem s m =
    let size = length (magic_bytes ++ s) in
    let behind : size - 4 ≡ length s = omega arith in
    rw (le→ltb size 4 (omega arith)) (
      rw m
        (rw behind (ap (λ (t : Bytes). some (t, length s)) (take_all (length s) s (omega arith)))))

-- Every account is stored under its own name.
abbrev pub IsKeyed : List (Bytes × UserAccount) → Type 0
IsKeyed = All (λ e. e.1.username ≡ e.0)

abbrev pub accounts : List (Bytes × UserAccount) → List UserAccount
accounts = map (λ e. e.1)

module _ (table : Table Bytes UserAccount eq_bytes) (tail : Bytes) where
  open table use {T, set}

  -- The accounts stored one after the other.
  pub set_all : T → List UserAccount → T
  set_all t [] = t
  set_all t (a ∷ l) = set_all (set t a.username a) l

  add_row-row :
      (mem : Mem) (t : T) (a : UserAccount)
      → IsStorable a
      → ((i : ℕ) → mem i ≡ true)
      → add_row table (some tail) mem t a.username a.permission (print_b_array a.hash.array)
        ≡ ok (some (set t a.username a))
  unfolding add_row
  add_row-row mem t a h m =
      let array = a.hash.array in
      let full : length array ≡ 32 = h.full in
      let exact : length array ≡ a.hash.size = full ∙ sym h.sized in
      rw
        (hex_char_to_byte_array-print_b_array mem 33 array h.bytes
          (λ empty. absurd (omega (arith, full, ap length empty))) (omega (arith, full)) (m 0)
          (m 1))
        (rw (m 2, m 3)
          (ap
            (λ (n : ℕ). ok (
              some (
                set t a.username (record {
                  username = a.username;
                  permission = a.permission;
                  hash = record { size = n; array = array };
                }))))
            exact))

  populate_loop_step :
      (fuel : ℕ) (mem : Mem) (t : T) (seg : Bytes) (size total : ℕ) (name : Bytes) (perm : ℕ)
      (hash : Bytes) (t' : T) (next : Bytes)
      → ltb total size ≡ true
      → row_at (some tail) seg ≡ ok (row_read name perm hash)
      → add_row table (some tail) mem t name perm hash ≡ ok (some t')
      → next_segment size seg ≡ ok (some next)
      → populate_loop table (some tail) (suc fuel) mem t (some seg) size total
        ≡ populate_loop table
            (some tail)
            fuel
            (later 4 mem)
            t'
            (some next)
            size
            (total + 4 + length name + length hash)
  unfolding populate_loop
  populate_loop_step fuel mem t seg size total name perm hash t' next e1 e2 e3 e4 =
      rw (e1, populate_loop) (rw e2 (rw e3 (rw e4)))

  populate_loop-end :
      (fuel : ℕ) (mem : Mem) (t : T) (seg : Bytes) (size : ℕ)
      → populate_loop table (some tail) (suc fuel) mem t (some seg) size size ≡ ok (some t)
  unfolding populate_loop
  populate_loop-end fuel mem t seg size = rw (le→ltb size size (omega arith), populate_loop)

  populate_loop-rows :
      (l : List UserAccount) (fuel : ℕ) (mem : Mem) (t : T) (size total : ℕ)
      → All IsStorable l
      → length l < fuel
      → size ≡ total + length (rows l)
      → ((i : ℕ) → mem i ≡ true)
      → populate_loop table (some tail) fuel mem t (some (rows l)) size total
        ≡ ok (some (set_all t l))
  unfolding set_all
  populate_loop-rows l zero mem t size total h f e m = elim f [ ]
  populate_loop-rows [] (suc fuel) mem t size total h f e m =
      let done : total ≡ size = omega arith in rw done (populate_loop-end fuel mem t [] size)
  populate_loop-rows (a ∷ l) (suc fuel) mem t size total h f e m =
      let len = length-append (row a) (rows l) in
      let len_row = length-row a (IsStorable-IsWritable a h.0) in
      let hex = length-print_b_array a.hash.array in
      let full : length a.hash.array ≡ 32 = h.0.full in
      populate_loop_step fuel mem t (row a ++ rows l) size total a.username a.permission
        (print_b_array a.hash.array) (set t a.username a) (rows l)
        (lt→ltb _ _ (omega (arith, e, len, len_row))) (row_at-row a h.0 tail (rows l))
        (add_row-row mem t a h.0 m) (next_segment-row a h.0 size (rows l) (omega (arith, e, len)))
      ∙ populate_loop-rows l fuel (later 4 mem) (set t a.username a) size
          (total + 4 + length a.username + length (print_b_array a.hash.array)) h.1 (omega arith)
          (omega (arith, e, len, len_row, hex, full)) (λ i. m (4 + i))

  -- What `db_update_db` wrote for storable accounts is read back without an error, account by
  -- account, when memory holds a 0 behind the block, does not run out and the loop has a round for each account and one more.
  pub populate_htable-rows :
      (l : List UserAccount) (fuel : ℕ) (mem : Mem) (t : T)
      → All IsStorable l
      → length l < fuel
      → ((i : ℕ) → mem i ≡ true)
      → populate_htable table (some tail) fuel mem t (rows l) (length (rows l))
        ≡ ok (some (set_all t l))
  unfolding populate_htable
  populate_htable-rows l fuel mem t h f m =
      populate_loop-rows l fuel mem t (length (rows l)) 0 h f (omega arith) m

  first_of_two : Option UserAccount → Option UserAccount → Option UserAccount
  first_of_two none b = b
  first_of_two (some a) b = some a

  get-set_all :
      (es : List (Bytes × UserAccount)) (t : T) (k : Bytes)
      → IsKeyed es
      → Fresh eq_bytes es
      → table.get (set_all t (accounts es)) k ≡ first_of_two (find eq_bytes k es) (table.get t k)
  unfolding set_all first_of_two
  get-set_all [] t k key new = refl
  get-set_all ((j, a) ∷ es) t k key new =
      ap (λ (name : Bytes). table.get (set_all (set t name a) (accounts es)) k) key.0
      ∙ get-set_all es (set t j a) k key.1 new.1
      ∙ split (Bool-cases (eq_bytes j k))
    where
      split :
          (eq_bytes j k ≡ true) ⊎ (eq_bytes j k ≡ false)
          → first_of_two (find eq_bytes k es) (table.get (set t j a) k)
            ≡ first_of_two (find eq_bytes k ((j, a) ∷ es)) (table.get t k)
      split (inl e) =
          let absent : find eq_bytes k es ≡ none = rw (← eq_bytes→eq j k e) new.0 in
          rw (absent, table.get-set t j k a, e)
      split (inr e) = rw (table.get-set t j k a, e)

  first_of_two-none : (o : Option UserAccount) → first_of_two o none ≡ o
  unfolding first_of_two
  first_of_two-none none = refl
  first_of_two-none (some a) = refl

  -- Writing and reading again, for accounts that lie under their own names.
  pub reload :
      (fuel : ℕ) (mem : Mem) (t : T)
      → IsKeyed (table.entries t)
      → All IsStorable (accounts (table.entries t))
      → length (accounts (table.entries t)) < fuel
      → ((i : ℕ) → mem i ≡ true)
      → (file stream : Bytes) × (t' : T) × (db_bytes (accounts (table.entries t)) ≡ ok file)
        × (get_stored_data mem (some (file, length file)) ≡ some (stream, length stream))
        × (populate_htable table (some tail) fuel mem table.create stream (length stream)
            ≡ ok (some t'))
        × ((k : Bytes) → table.get t' k ≡ table.get t k)
  reload fuel mem t key safe f m =
      let es = table.entries t in
      let l = accounts es in
      (
        magic_bytes ++ rows l,
        rows l,
        set_all table.create l,
        db_bytes-rows l (All-map IsStorable IsWritable IsStorable-IsWritable l safe),
        get_stored_data_magic mem (rows l) (m 0),
        populate_htable-rows l fuel mem table.create safe f m,
        (λ k.
            get-set_all es table.create k key (table.entries-Fresh t)
            ∙ ap (first_of_two (find eq_bytes k es)) (table.get-create k)
            ∙ first_of_two-none (find eq_bytes k es)
            ∙ sym (table.get-entries t k)),
      )
