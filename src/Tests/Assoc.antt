-- ===== src/Tests/Assoc.antt =====
-- A hash table as an association list: the laws that Table.antt asks for can hold.
use bsle.Prelude.{
  ◌≡◌, refl, Bool, true, false, Bool-cases, inl, inr, none, some, List, [], ◌∷◌, if◌then◌else◌,
}
use bsle.Table.{Table, find, Fresh}

module _ {K V : Type 0} (eq : K → K → Bool) (eq_sound : (a b : K) → eq a b ≡ true → a ≡ b)
    (eq_refl : (a : K) → eq a a ≡ true) where
  abbrev delete : K → List (K × V) → List (K × V)
  delete k [] = []
  delete k ((j, v) ∷ l) = let rest = delete k l in if eq j k then rest else (j, v) ∷ rest

  pub find-delete :
      (k j : K) (l : List (K × V)) → find eq j (delete k l) ≡ (if eq k j then none else find eq j l)
  find-delete k j [] = elim (Bool-cases (eq k j)) [ inl e ↦ rw e refl | inr e ↦ rw e refl ]
  find-delete k j ((i, v) ∷ l) =
      let ih = find-delete k j l in
      elim (Bool-cases (eq i k)) [
        | inl e ↦ rw (eq_sound i k e) (
            rw (eq_refl k) (elim (Bool-cases (eq k j)) [
              | inl f ↦ rw f (rw f at ih)
              | inr f ↦ rw f (rw f at ih)
            ]))
        | inr e ↦ rw e (elim (Bool-cases (eq k j)) [
          | inl f ↦
              let other : eq i j ≡ false = rw (← eq_sound k j f) e in rw f (rw other (rw f at ih))
          | inr f ↦
              rw f (elim (Bool-cases (eq i j)) [ inl g ↦ rw g refl | inr g ↦ rw g (rw f at ih) ])
        ])
      ]

  pub delete-Fresh : (k : K) (l : List (K × V)) → Fresh eq l → Fresh eq (delete k l)
  delete-Fresh k [] h = tt
  delete-Fresh k ((i, v) ∷ l) (h, hs) = elim (Bool-cases (eq i k)) [
    | inl e ↦ rw e (delete-Fresh k l hs)
    | inr e ↦
        let gone = find-delete k i l in
        rw e (elim (Bool-cases (eq k i)) [
          | inl f ↦ (rw f at gone, delete-Fresh k l hs)
          | inr f ↦ (rw (f, h) at gone, delete-Fresh k l hs)
        ])
  ]

  pub absent : (k : K) (l : List (K × V)) → find eq k (delete k l) ≡ none
  absent k l = let gone = find-delete k k l in rw (eq_refl k) at gone

  pub set_found :
      (k j : K) (v : V) (l : List (K × V))
      → find eq j ((k, v) ∷ delete k l) ≡ (if eq k j then some v else find eq j l)
  set_found k j v l =
      let gone = find-delete k j l in
      elim (Bool-cases (eq k j)) [ inl e ↦ rw e refl | inr e ↦ rw e (rw e at gone) ]

  abbrev pub assoc : Table K V eq
  assoc = record {
    T = (l : List (K × V)) × Fresh eq l;
    create = ([], tt);
    get = λ t k. find eq k t.0;
    set = λ t k v. ((k, v) ∷ delete k t.0, (absent k t.0, delete-Fresh k t.0 t.1));
    del = λ t k. (find eq k t.0, (delete k t.0, delete-Fresh k t.0 t.1));
    entries = λ t. t.0;
    get-create = λ k. refl;
    get-set = λ t k j v. set_found k j v t.0;
    del-get = λ t k. refl;
    get-del = λ t k j. find-delete k j t.0;
    get-entries = λ t k. refl;
    entries-Fresh = λ t. t.1;
  }
