-- ===== src/Ctrl/Sessions.antt =====
-- The sessions of src/server/server_ctrl.c: generate_session_id, and the check in ctrl_parse_action.
use bsle.Prelude.{
  ◌≤◌, le→ltb, ℕ, zero, suc, ◌+◌, ◌-◌, ◌*◌, ◌<◌, ◌≡◌, refl, ap, ◌∙◌, Bool, true, none, some,
  Option-cases, Bool-cases, inl, inr, arith, Run, ok, fault, stuck, ◌>>=◌, Mem, ltb, ==_refl,
  if◌then◌else◌,
}
use bsle.Server.{RetCode}
use bsle.Db.{Base, eq_session}
use bsle.Ctrl.{gen_session, get_time, fresh_session, generate_session_id, renew, check_session}

module _ (base : Base) where
  open base use {sessions}

  fresh_session-none :
      (fuel : ℕ) (rand : ℕ → ℕ) (n : ℕ) (t : sessions.T) {sesh : ℕ}
      → fresh_session base fuel rand n t ≡ ok sesh
      → sessions.get t sesh ≡ none
  unfolding fresh_session
  fresh_session-none zero rand n t e = cc
  fresh_session-none (suc fuel) rand n t {sesh} e =
      elim (Option-cases (sessions.get t (gen_session rand n))) [
        | inl free ↦
            let here : gen_session rand n ≡ sesh = ground (arith, rw (free, fresh_session) at e) in
            rw (← here) free
        | inr (v, used) ↦ fresh_session-none fuel rand (n + 4) t (rw (used, fresh_session) at e)
      ]

  -- With fuel for more than k rounds the search ends if the number of round k, counted from 0, is free;
  -- and the number that it gives is free.
  pub fresh_session_total :
      (k fuel : ℕ) (rand : ℕ → ℕ) (n : ℕ) (t : sessions.T)
      → k < fuel
      → sessions.get t (gen_session rand (n + 4 * k)) ≡ none
      → (sesh : ℕ) × (fresh_session base fuel rand n t ≡ ok sesh) × (sessions.get t sesh ≡ none)
  unfolding fresh_session
  fresh_session_total k zero rand n t h free = elim h [ ]
  fresh_session_total zero (suc fuel) rand n t h free =
      let first : n + 4 * 0 ≡ n = omega arith in
      let here = rw first at free in (gen_session rand n, rw (here, fresh_session), here)
  fresh_session_total (suc k) (suc fuel) rand n t h free =
      let next : n + 4 * suc k ≡ n + 4 + 4 * k = omega arith in
      let (sesh, ends, unused) =
        fresh_session_total k fuel rand (n + 4) t (omega arith) (rw next at free) in
      elim (Option-cases (sessions.get t (gen_session rand n))) [
        | inl here ↦ (gen_session rand n, rw (here, fresh_session), here)
        | inr (v, used) ↦ (sesh, rw (used, fresh_session) ends, unused)
      ]

  -- What is stored when the search has ended with a number.
  abbrev Stored : Mem → ℕ → sessions.T → sessions.T → ℕ → Type 0
  Stored mem now t t' session_id =
      (sessions.get t session_id ≡ none) × (t' ≡ sessions.set t session_id (get_time (mem 1) now))

  store-Stored :
      (mem : Mem) (now : ℕ) (t t' : sessions.T) (old session_id : ℕ) (r : Run ℕ)
      → ((sesh : ℕ) → r ≡ ok sesh → sessions.get t sesh ≡ none)
      → ◌>>=◌ {B = RetCode × sessions.T × ℕ} r (λ sesh. ok (
          if mem 0
          then (RetCode.op_success, sessions.set t sesh (get_time (mem 1) now), sesh)
          else (RetCode.op_failure, t, old)))
        ≡ ok (RetCode.op_success, t', session_id)
      → Stored mem now t t' session_id
  store-Stored mem now t t' old session_id fault free e = cc
  store-Stored mem now t t' old session_id stuck free e = cc
  store-Stored mem now t t' old session_id (ok sesh) free e = elim (Bool-cases (mem 0)) [
    | inr m ↦ cc (rw m at e)
    | inl m ↦
        let e' = rw m at e in
        let same : sesh ≡ session_id = ground (arith, e') in
        let table : t' ≡ sessions.set t sesh (get_time (mem 1) now) = ground (arith, e') in
        rw (← same) (free sesh refl, table)
  ]

  -- When a session is made, its number is one that no session had; afterwards it is stored with the
  -- time of the request, and every other number is as before.
  pub generate_session_id_fresh :
      (fuel : ℕ) (rand : ℕ → ℕ) (mem : Mem) (now : ℕ) (t t' : sessions.T) (old session_id : ℕ)
      (other : ℕ)
      → generate_session_id base fuel rand mem now t old ≡ ok (RetCode.op_success, t', session_id)
      → (sessions.get t session_id ≡ none)
        × (sessions.get t' other ≡ (
            if eq_session session_id other
            then some (get_time (mem 1) now)
            else sessions.get t other))
  unfolding generate_session_id
  generate_session_id_fresh fuel rand mem now t t' old session_id other e =
      let (free, table) =
        store-Stored mem now t t' old session_id (fresh_session base fuel rand 0 t)
          (λ sesh. fresh_session-none fuel rand 0 t) e in
      (
        free,
        ap (λ (u : sessions.T). sessions.get u other) table
            ∙ sessions.get-set t session_id other (get_time (mem 1) now),
      )

  -- Within the timeout the session starts again from now, and the others are left alone.
  pub check_session_in_time :
      (mem : Mem) (now timeout : ℕ) (t : sessions.T) (session_id start : ℕ)
      → sessions.get t session_id ≡ some (some start)
      → mem 0 ≡ true
      → now ≤ start + timeout
      → check_session base mem now timeout t session_id
        ≡ ok (RetCode.op_success, sessions.set t session_id (some now))
  unfolding check_session renew
  check_session_in_time mem now timeout t session_id start found m early =
      rw (found, check_session)
        (rw m (rw (le→ltb timeout (now - start) (omega (arith, early))) refl))

  -- A request with a stored session that has a time, when the one allocation succeeds: after more
  -- than the timeout the session is refused and gone, and within it the session is accepted and
  -- starts again from now.
  pub check_session_timeout :
      (mem : Mem) (now timeout : ℕ) (t : sessions.T) (session_id start : ℕ)
      → sessions.get t session_id ≡ some (some start)
      → mem 0 ≡ true
      → (code : RetCode) × (t' : sessions.T) × (check_session base mem now timeout t session_id
          ≡ ok (code, t'))
        × (if ltb timeout (now - start)
            then (code ≡ RetCode.op_session_error) × (sessions.get t' session_id ≡ none)
            else (code ≡ RetCode.op_success) × (sessions.get t' session_id ≡ some (some now)))
  unfolding check_session renew
  check_session_timeout mem now timeout t session_id start found m =
      elim (Bool-cases (ltb timeout (now - start))) [
        | inl late ↦ (
          RetCode.op_session_error,
          (sessions.del t session_id).1,
          rw (found, check_session) (rw m (rw late)),
          rw late (
            refl,
            sessions.get-del t session_id session_id
                ∙ ap (λ (b : Bool). if b then none else sessions.get t session_id)
                    (==_refl session_id),
          ),
        )
        | inr soon ↦ (
          RetCode.op_success,
          sessions.set t session_id (some now),
          rw (found, check_session) (rw m (rw soon)),
          rw soon (
            refl,
            sessions.get-set t session_id session_id (some now)
                ∙ ap (λ (b : Bool). if b then some (some now) else sessions.get t session_id)
                    (==_refl session_id),
          ),
        )
      ]

  -- A number that names no session is refused, and nothing changes.
  check_session_unknown :
      (mem : Mem) (now timeout : ℕ) (t : sessions.T) (session_id : ℕ)
      → sessions.get t session_id ≡ none
      → check_session base mem now timeout t session_id ≡ ok (RetCode.op_session_error, t)
  unfolding check_session
  check_session_unknown mem now timeout t session_id absent = rw (absent, check_session)
