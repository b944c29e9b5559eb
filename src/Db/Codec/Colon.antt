-- ===== src/Db/Codec/Colon.antt =====
-- A user name with a colon, in the file of src/server/server_db.c.
use bsle.Prelude.{
  Option, Run, ◌>>=◌, sym, All-append, fault, stuck, ℕ, suc, ◌%◌, ◌≤◌, ◌<◌, ◌≡◌, ◌≢◌, refl, ap, ◌∙◌,
  none, [], ◌∷◌, ◌++◌, append_assoc, arith, Bytes, length, length-append, lt→ltb, ok, Mem, eq_bytes,
  Lacks,
}
use bsle.Server.{UserAccount}
use bsle.Decimal.{print_dec}
use bsle.Table.{Table}
use bsle.Db.Codec.{
  row_text, scan_perm, scan_row, row_bad, string_at, row_at, populate_loop, populate_htable,
}
use bsle.Db.Codec.Rows.{scan_set-token, string_at-append}

scan_perm_letter : (c : ℕ) (s : Bytes) → 65 ≤ c → scan_perm (c ∷ s) ≡ none
unfolding scan_perm
scan_perm_letter c s h = ground arith

scan_row_colon :
    (head : Bytes) (c : ℕ) (s : Bytes)
    → head ≢ []
    → Lacks b':' head
    → length head ≤ 20
    → 65 ≤ c
    → scan_row (head ++ b':' ∷ c ∷ s) ≡ row_bad
unfolding scan_row
scan_row_colon [] c s ne l f h = absurd (ne refl)
scan_row_colon (d ∷ head) c s ne l f h =
    rw (scan_set-token 20 b':' (d ∷ head) (c ∷ s) l f) (rw (scan_perm_letter c s h))

module _ (table : Table Bytes UserAccount eq_bytes) (behind : Option Bytes) where
  open table use {T}

  populate_bad :
      (fuel : ℕ) (mem : Mem) (t : T) (s : Bytes) (read : Run Bytes) (text : Bytes → Bytes)
      → 0 < length s
      → string_at behind s ≡ (read >>= λ u. ok (text u))
      → ((u : Bytes) → scan_row (text u) ≡ row_bad)
      → populate_htable table behind (suc fuel) mem t s (length s)
        ≡ (string_at behind s >>= λ u. ok none)
  unfolding populate_htable populate_loop row_at
  populate_bad fuel mem t s fault text pos e bad =
      rw (lt→ltb 0 (length s) pos, populate_loop) (rw e refl)
  populate_bad fuel mem t s stuck text pos e bad =
      rw (lt→ltb 0 (length s) pos, populate_loop) (rw e refl)
  populate_bad fuel mem t s (ok u) text pos e bad =
      rw (lt→ltb 0 (length s) pos, populate_loop) (rw e (rw (bad u) refl))

  -- The row of a name with a colon cannot be read back: if 1 to 20 characters that are neither a
  -- colon nor 0 stand in front of the colon, and a character from 65 on, such as a letter, behind
  -- it, `populate_htable` fails at that row, whatever comes behind it; or it faults, where the text is no
  -- string in memory.
  pub populate_htable_colon :
      (fuel : ℕ) (mem : Mem) (t : T) (head tail : Bytes) (c permission : ℕ) (hash rest : Bytes)
      → head ≢ []
      → Lacks b':' head
      → Lacks 0 head
      → length head ≤ 20
      → 65 ≤ c
      → populate_htable table behind
          (suc fuel)
          mem
          t
          (row_text (head ++ b':' ∷ c ∷ tail) permission hash ++ rest)
          (length (row_text (head ++ b':' ∷ c ∷ tail) permission hash ++ rest))
        ≡ (string_at behind (row_text (head ++ b':' ∷ c ∷ tail) permission hash ++ rest) >>= λ u.
            ok none)
  unfolding row_text
  populate_htable_colon fuel mem t head tail c permission hash rest ne l nul f h =
      let fields = b':' ∷ (print_dec (permission % 256) ++ b':' ∷ (hash ++ b'\n' ∷ [])) in
      let more = tail ++ (fields ++ rest) in
      let start = head ++ b':' ∷ c ∷ [] in
      let text : row_text (head ++ b':' ∷ c ∷ tail) permission hash ++ rest ≡ start ++ more =
        append_assoc (head ++ b':' ∷ c ∷ tail) fields rest
        ∙ append_assoc head (b':' ∷ c ∷ tail) (fields ++ rest)
        ∙ sym (append_assoc head (b':' ∷ c ∷ []) more) in
      let chars : Lacks 0 start = All-append _ head _ nul (omega arith, (omega arith, tt)) in
      let long : 0 < length (start ++ more) =
        omega (arith, length-append start more, length-append head (b':' ∷ c ∷ [])) in
      rw text (
        populate_bad fuel mem t (start ++ more) (string_at behind more) (λ u. start ++ u) long
          (string_at-append behind start more chars)
          λ u. ap scan_row (append_assoc head (b':' ∷ c ∷ []) u) ∙ scan_row_colon head c u ne l f h)
