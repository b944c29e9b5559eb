-- ===== src/Sock/Start/Rounds.antt =====
-- The loop of start_server of src/server/server_sock.c: when it ends, and which connections it took.
use bsle.Prelude.{
  sym, Bool-cases, ℕ, ◌≡◌, ◌∙◌, refl, ◌⊎◌, inl, inr, true, false, List, [], ◌∷◌, ◌++◌, append_assoc,
  append-nil, ok, arith,
}
use bsle.Sock.Start.{
  Signal, interrupt, broken_pipe, deliver, Job, Round, job_of, accept_loop, is_blocked,
}

-- An interrupt is among the signals, and none is.
abbrev pub Interrupted : List Signal → Type 0
Interrupted [] = ⊥
Interrupted (interrupt ∷ signals) = Unit
Interrupted (broken_pipe ∷ signals) = Interrupted signals

abbrev pub OnlyPipes : List Signal → Type 0
OnlyPipes [] = Unit
OnlyPipes (interrupt ∷ signals) = ⊥
OnlyPipes (broken_pipe ∷ signals) = OnlyPipes signals

deliver_stopped : (signals : List Signal) → deliver signals false ≡ false
unfolding deliver
deliver_stopped [] = refl
deliver_stopped (interrupt ∷ signals) = deliver_stopped signals
deliver_stopped (broken_pipe ∷ signals) = deliver_stopped signals

deliver-Interrupted : (signals : List Signal) → Interrupted signals → deliver signals true ≡ false
unfolding deliver
deliver-Interrupted [] i = absurd i
deliver-Interrupted (interrupt ∷ signals) i = deliver_stopped signals
deliver-Interrupted (broken_pipe ∷ signals) i = deliver-Interrupted signals i

deliver-OnlyPipes : (signals : List Signal) → OnlyPipes signals → deliver signals true ≡ true
unfolding deliver
deliver-OnlyPipes [] p = refl
deliver-OnlyPipes (interrupt ∷ signals) p = absurd p
deliver-OnlyPipes (broken_pipe ∷ signals) p = deliver-OnlyPipes signals p

Interrupted-cases : (signals : List Signal) → Interrupted signals ⊎ OnlyPipes signals
Interrupted-cases [] = inr tt
Interrupted-cases (interrupt ∷ signals) = inl tt
Interrupted-cases (broken_pipe ∷ signals) = Interrupted-cases signals

-- The rounds up to the one whose test finds the flag cleared, with their jobs.
pub data Taken (timeout : ℕ) : List Round → List Job → Type 0 where
  stop : {r : Round} {rounds : List Round} → Interrupted r.signals → Taken timeout (r ∷ rounds) []
  last :
      {r r' : Round} {rounds : List Round}
      → OnlyPipes r.signals
      → is_blocked r.accepted ≡ false
      → Interrupted r.during
      → Taken timeout (r ∷ r' ∷ rounds) (job_of timeout r.accepted r.room)
  round :
      {r : Round} {rounds : List Round} {jobs all : List Job}
      → OnlyPipes r.signals
      → is_blocked r.accepted ≡ false
      → OnlyPipes r.during
      → Taken timeout rounds jobs
      → all ≡ job_of timeout r.accepted r.room ++ jobs
      → Taken timeout (r ∷ rounds) all

-- The flag is tested behind an interrupt: there is one in front of the test of a round, or one behind it
-- in a round whose `accept` returns, so that there is a next round.
abbrev pub TestsInterrupted : List Round → Type 0
TestsInterrupted [] = ⊥
TestsInterrupted (r ∷ []) = Interrupted r.signals
TestsInterrupted (r ∷ r' ∷ rounds) =
    Interrupted r.signals
    ⊎ ((is_blocked r.accepted ≡ false) × (Interrupted r.during ⊎ TestsInterrupted (r' ∷ rounds)))

module _ (timeout : ℕ) where
  -- Once the flag is cleared the next test ends the loop.
  cleared_ends :
      (r : Round) (rounds : List Round) (jobs : List Job)
      → accept_loop timeout (r ∷ rounds) false jobs ≡ ok jobs
  unfolding accept_loop
  cleared_ends r rounds jobs = rw (deliver_stopped r.signals) refl

  one_round :
      (r : Round) (rounds : List Round) (jobs : List Job)
      → OnlyPipes r.signals
      → is_blocked r.accepted ≡ false
      → accept_loop timeout (r ∷ rounds) true jobs
        ≡ accept_loop timeout rounds
            (deliver r.during true)
            (jobs ++ job_of timeout r.accepted r.room)
  unfolding accept_loop
  one_round r rounds jobs p u = rw (deliver-OnlyPipes r.signals p) (rw u refl)

  -- Behind a round in which the flag was cleared.
  cleared-Taken :
      (r : Round) (rounds : List Round) (jobs all : List Job)
      → OnlyPipes r.signals
      → is_blocked r.accepted ≡ false
      → Interrupted r.during
      → accept_loop timeout rounds false (jobs ++ job_of timeout r.accepted r.room) ≡ ok all
      → (more : List Job) × (all ≡ jobs ++ more) × Taken timeout (r ∷ rounds) more
  unfolding accept_loop
  cleared-Taken r [] jobs all p u i e = cc
  cleared-Taken r (r' ∷ rounds) jobs all p u i e =
      let own = job_of timeout r.accepted r.room in
      let done = cleared_ends r' rounds (jobs ++ own) in (own, ground (arith, done, e), last p u i)

  pub accept_loop-Taken :
      (rounds : List Round) (jobs all : List Job)
      → accept_loop timeout rounds true jobs ≡ ok all
      → (more : List Job) × (all ≡ jobs ++ more) × Taken timeout rounds more
  unfolding accept_loop
  accept_loop-Taken [] jobs all e = cc
  accept_loop-Taken (r ∷ rounds) jobs all e = elim (Interrupted-cases r.signals) [
    | inl i ↦
        let e' = rw (deliver-Interrupted r.signals i) at e in
        ([], ground (arith, append-nil jobs), stop i)
    | inr p ↦ elim (Bool-cases (is_blocked r.accepted)) [
      | inl b ↦ cc (rw b at (rw (deliver-OnlyPipes r.signals p) at e))
      | inr u ↦
          let own = job_of timeout r.accepted r.room in
          let e1 = sym (one_round r rounds jobs p u) ∙ e in
          elim (Interrupted-cases r.during) [
            | inl i ↦
                cleared-Taken r rounds jobs all p u i (rw (deliver-Interrupted r.during i) at e1)
            | inr q ↦
                let (more, is, took) =
                  accept_loop-Taken rounds (jobs ++ own) all
                    (rw (deliver-OnlyPipes r.during q) at e1) in
                (own ++ more, is ∙ append_assoc jobs own more, round p u q took refl)
          ]
    ]
  ]
