-- ===== src/Release/Freeing.antt =====
-- What code frees, block by block: a piece of code and the list of the steps that it takes.
use bsle.Prelude.{
  ℕ, Bool, true, false, List, [], ◌∷◌, ◌++◌, Run, ok, ◌>>=◌, ◌>>◌, in_bounds, ◌≡◌, refl, ◌==◌,
  ==_iff, Bool-cases, inl, inr, sym,
}
use bsle.Release.{Allocator, free_set, clear_free}
use bsle.Release.Blocks.{Step, structure, step, free_all, free_all-append}

module _ (c : Allocator) where
  open c use {Heap, live, free}

  pub free_set-free : (p : ℕ) (h : Heap) → free_set c p h ≡ free p h
  unfolding free_set
  free_set-free p h = elim (Bool-cases (p == 0)) [
    | inl e ↦ rw e (rw ((==_iff p 0).0 e) (sym (c.free_null h)))
    | inr e ↦ rw e refl
  ]

  pub clear_free-step : (p : ℕ) (h : Heap) → clear_free c p h ≡ step c (structure p) h
  unfolding clear_free
  clear_free-step p h = refl

  abbrev pub returning : {A : Type 0} → A → Heap → Run (A × Heap)
  returning a h = ok (a, h)

  -- The code frees these blocks in this order, and returns that value.
  pub record IsFreeing {A : Type 0} (ss : List Step) (a : A) (h : Heap) (run : Run (A × Heap))
      : Type 0 where
    pub runs : run ≡ (free_all c ss h >>= returning a)

  pub first_step :
      {A : Type 0} (s : Step) {ss : List Step} {a : A} {h : Heap} {m : Run Heap}
      (k : Heap → Run (A × Heap))
      → m ≡ step c s h
      → ((h' : Heap) → IsFreeing ss a h' (k h'))
      → IsFreeing (s ∷ ss) a h (m >>= k)
  unfolding free_all
  first_step s {ss} {a} {h} k e rest = record {
    runs = rw e (elim (step c s h) as (λ r. (r >>= k) ≡ (r >>= free_all c ss >>= returning a)) [
      | Run.fault ↦ refl
      | Run.stuck ↦ refl
      | ok h1 ↦ (rest h1).runs
    ]);
  }

  pub first_part :
      {A B : Type 0} {ss ts : List Step} {a : A} {b : B} {h : Heap} {m : Run (A × Heap)}
      (k : A × Heap → Run (B × Heap))
      → IsFreeing ss a h m
      → ((h' : Heap) → IsFreeing ts b h' (k (a, h')))
      → IsFreeing (ss ++ ts) b h (m >>= k)
  first_part {A} {B} {ss} {ts} {a} {b} {h} k e rest = record {
    runs = rw e.runs (
        rw (free_all-append c ss ts h)
          (elim (free_all c ss h)
            as (λ r. (r >>= returning a >>= k) ≡ (r >>= free_all c ts >>= returning b)) [
              | Run.fault ↦ refl
              | Run.stuck ↦ refl
              | ok h1 ↦ (rest h1).runs
            ]));
  }

  pub freed_none : {A : Type 0} (a : A) (h : Heap) → IsFreeing [] a h (ok (a, h))
  unfolding free_all
  freed_none a h = record { runs = refl }

  pub returned :
      {A B : Type 0} (f : A → B) {ss : List Step} {a : A} {h : Heap} {m : Run (A × Heap)}
      → IsFreeing ss a h m
      → IsFreeing ss (f a) h (m >>= λ p. returning (f p.0) p.1)
  returned {A} {B} f {ss} {a} {h} e = record {
    runs =
        rw e.runs
          (elim (free_all c ss h)
            as (λ r.
              (r >>= returning a >>= (λ p. returning (f p.0) p.1)) ≡ (r >>= returning (f a))) [
                | Run.fault ↦ refl
                | Run.stuck ↦ refl
                | ok h1 ↦ refl
              ]);
  }

  pub guard_assoc :
      {A B : Type 0} (b : Bool) (m : Run A) (k : A → Run B)
      → (in_bounds b >> (m >>= k)) ≡ ((in_bounds b >> m) >>= k)
  guard_assoc true m k = refl
  guard_assoc false m k = refl
