-- ===== src/Table/Entries.antt =====
-- What the iterator of the hash table library yields, for keys that are byte strings.
use bsle.Prelude.{
  ◌≡◌, refl, sym, ◌∙◌, Bool-cases, inl, inr, none, some, List, [], ◌∷◌, Bytes, All, eq_bytes,
  eq_bytes_refl, eq_bytes→eq,
}
use bsle.Table.{find, Fresh}

-- In a list with each key once, what holds of what is found holds of every entry.
pub All-find :
    {V : Type 0} (P : Bytes → V → Type 0) (es : List (Bytes × V))
    → Fresh eq_bytes es
    → ((key : Bytes) (v : V) → find eq_bytes key es ≡ some v → P key v)
    → All (λ e. P e.0 e.1) es
All-find P [] new holds = tt
All-find {V = V} P ((j, v) ∷ es) new holds = (
  holds j v (rw (eq_bytes_refl j) refl),
  All-find P es new.1 (λ key x e. holds key x (behind key x e)),
)
  where
    behind :
        (key : Bytes) (x : V)
        → find eq_bytes key es ≡ some x
        → find eq_bytes key ((j, v) ∷ es) ≡ some x
    behind key x e = elim (Bool-cases (eq_bytes j key)) [
      | inl same ↦
          let absent : find eq_bytes key es ≡ none = rw (← eq_bytes→eq j key same) new.0 in
          cc (sym absent ∙ e)
      | inr other ↦ rw other e
    ]
