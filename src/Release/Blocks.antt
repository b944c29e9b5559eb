-- ===== src/Release/Blocks.antt =====
-- The blocks that the destructors of Release free, in turn: which blocks are owned, and what is left.
use bsle.Prelude.{
  ℕ, Bool, true, false, List, [], ◌∷◌, ◌++◌, Run, ok, ◌>>=◌, ◌>>◌, in_bounds, ◌≡◌, refl, ◌&&◌, ◌||◌,
  ◌==◌, ==_iff, ==_refl, not, Bool-cases, inl, inr, arith, sym, ◌∙◌, ap,
}
use bsle.Release.{Allocator}

-- A pointer that is freed and may be NULL; a structure that is cleared and freed; one only cleared.
pub data Step : Type 0 where
  buffer structure kept : ℕ → Step

-- Whether the step is about the block at `q`.
abbrev pub is_at : Step → ℕ → Bool
is_at (buffer p) q = q == p
is_at (structure p) q = q == p
is_at (kept p) q = q == p

-- Whether the step frees the block at `q`.
abbrev pub is_freed_by : Step → ℕ → Bool
is_freed_by (buffer p) q = q == p
is_freed_by (structure p) q = q == p
is_freed_by (kept p) q = false

unfoldable pub mentions : List Step → ℕ → Bool
mentions [] q = false
mentions (s ∷ ss) q = is_at s q || mentions ss q

-- Whether the block at `q` is freed.
unfoldable pub frees : List Step → ℕ → Bool
frees [] q = false
frees (s ∷ ss) q = is_freed_by s q || frees ss q

module _ (c : Allocator) where
  open c use {Heap, live, free}

  abbrev pub step : Step → Heap → Run Heap
  step (buffer p) h = free p h
  step (structure p) h = in_bounds (live h p) >> free p h
  step (kept p) h = in_bounds (live h p) >> ok h

  unfoldable pub free_all : List Step → Heap → Run Heap
  free_all [] h = ok h
  free_all (s ∷ ss) h = step s h >>= free_all ss

  pub free_all-append :
      (ss ts : List Step) (h : Heap) → free_all (ss ++ ts) h ≡ (free_all ss h >>= free_all ts)
  unfolding free_all
  free_all-append [] ts h = refl
  free_all-append (s ∷ ss) ts h =
      elim (step s h) as (λ r. (r >>= free_all (ss ++ ts)) ≡ (r >>= free_all ss >>= free_all ts)) [
        | Run.fault ↦ refl
        | Run.stuck ↦ refl
        | ok h1 ↦ free_all-append ss ts h1
      ]

  -- Whether the step's block may be used: it is alive, or a pointer that is NULL.
  abbrev pub may_use : Heap → Step → Bool
  may_use h (buffer p) = p == 0 || live h p
  may_use h (structure p) = live h p
  may_use h (kept p) = live h p

  -- Whether no later step is about a block that this step frees.
  abbrev pub is_last : Step → List Step → Bool
  is_last (buffer p) ss = p == 0 || not (mentions ss p)
  is_last (structure p) ss = not (mentions ss p)
  is_last (kept p) ss = true

  -- Every block is alive, and none is used after it was freed.
  unfoldable pub owned : Heap → List Step → Bool
  unfolding mentions
  owned h [] = true
  owned h (s ∷ ss) = may_use h s && is_last s ss && owned h ss

  -- What is left alive after the blocks were freed: every other block, and no other.
  abbrev pub IsLeft : List Step → Heap → Heap → Type 0
  IsLeft ss h h' = (q : ℕ) → live h' q ≡ (live h q && not (frees ss q))

  -- Freeing NULL leaves every block, since NULL is none.
  and_not_null : (p : ℕ) (h : Heap) → p ≡ 0 → (q : ℕ) → live h q ≡ (live h q && not (q == p))
  and_not_null p h is_null q =
      elim (Bool-cases (q == p)) as (λ b. live h q ≡ (live h q && not (q == p))) [
        | inl e ↦
            let dead = ap (live h) ((==_iff q p).0 e ∙ is_null) ∙ c.live_null h in ground arith
        | inr e ↦ ground arith
      ]

  step-left :
      (s : Step) (h : Heap)
      → may_use h s ≡ true
      → (h' : Heap) × (step s h ≡ ok h')
        × ((q : ℕ) → live h' q ≡ (live h q && not (is_freed_by s q)))
  step-left (buffer p) h usable = elim (Bool-cases (p == 0)) [
    | inl e ↦ (h, rw ((==_iff p 0).0 e) (c.free_null h), and_not_null p h ((==_iff p 0).0 e))
    | inr e ↦ c.free_live p h ground arith
  ]
  step-left (structure p) h usable =
      let (h', run, left) = c.free_live p h usable in (h', rw usable run, left)
  step-left (kept p) h usable = (h, rw usable, λ q. ground arith)

  may_use-agrees :
      (s : Step) (h h' : Heap)
      → ((q : ℕ) → is_at s q ≡ true → live h' q ≡ live h q)
      → may_use h' s ≡ may_use h s
  may_use-agrees (buffer p) h h' same = rw (same p (==_refl p))
  may_use-agrees (structure p) h h' same = same p (==_refl p)
  may_use-agrees (kept p) h h' same = same p (==_refl p)

  -- Blocks that no step is about do not matter to the steps.
  owned-agrees :
      (ss : List Step) (h h' : Heap)
      → ((q : ℕ) → mentions ss q ≡ true → live h' q ≡ live h q)
      → owned h' ss ≡ owned h ss
  unfolding owned mentions
  owned-agrees [] h h' same = refl
  owned-agrees (s ∷ ss) h h' same = rw (may_use-agrees s h h' (λ q e. same q ground arith)) (
      ap (λ b. may_use h s && is_last s ss && b)
        (owned-agrees ss h h' (λ q e. same q ground arith)))

  -- Nothing that is used later is freed by the step.
  not_freed :
      (s : Step) (ss : List Step) (h : Heap) (q : ℕ)
      → is_last s ss ≡ true
      → mentions ss q ≡ true
      → (live h q && not (is_freed_by s q)) ≡ live h q
  not_freed (buffer p) ss h q last later =
      elim (Bool-cases (q == p)) as (λ b. (live h q && not (q == p)) ≡ live h q) [
        | inl e ↦
            let used = sym (ap (mentions ss) ((==_iff q p).0 e)) ∙ later in
            let null = and_not_null p h ((==_iff p 0).0 ground arith) q in sym null
        | inr e ↦ ground arith
      ]
  not_freed (structure p) ss h q last later =
      elim (Bool-cases (q == p)) as (λ b. (live h q && not (q == p)) ≡ live h q) [
        | inl e ↦ let used = sym (ap (mentions ss) ((==_iff q p).0 e)) ∙ later in ground arith
        | inr e ↦ ground arith
      ]
  not_freed (kept p) ss h q last later = ground arith

  -- Owned blocks are all freed: it runs through, every other block is left, and those that are owned
  -- besides are owned still.
  pub free_all-IsLeft :
      (ss ts : List Step) (h : Heap)
      → owned h (ss ++ ts) ≡ true
      → (h' : Heap) × (free_all ss h ≡ ok h') × IsLeft ss h h' × (owned h' ts ≡ true)
  unfolding owned free_all frees
  free_all-IsLeft [] ts h all = (h, refl, (λ q. ground arith), all)
  free_all-IsLeft (s ∷ ss) ts h all =
      let (h1, run, left) = step-left s h ground arith in
      let (h2, rest, left2, besides) = free_all-IsLeft ss ts h1 (
        owned-agrees (ss ++ ts) h h1 (λ q e. left q ∙ not_freed s (ss ++ ts) h q ground arith e)
        ∙ ground arith) in
      (h2, rw run rest, (λ q. left2 q ∙ rw (left q) ground arith), besides)
