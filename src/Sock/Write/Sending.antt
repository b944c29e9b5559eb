-- ===== src/Sock/Write/Sending.antt =====
-- The loops of write_response of src/server/server_sock.c.
use bsle.Prelude.{
  ℕ, zero, suc, ◌+◌, ◌-◌, ◌≤◌, ◌<◌, inl, inr, ◌≡◌, refl, ap, sym, ◌∙◌, Bool, true, false,
  Bool-cases, List, [], ◌∷◌, ◌++◌, append_assoc, append-nil, arith, Bytes, length, length-take,
  length-drop, take, drop, take-append-drop, take_all, ◌==◌, ==_iff, All, All-append,
}
use bsle.Server.{max_msg_size, max_file_size}
use bsle.Sock.Write.{WriteEvent, write_error, wrote, taken, send_loop, write_stream}

-- The bytes of the calls, one after the other.
abbrev pub sent_bytes : List Bytes → Bytes
sent_bytes [] = []
sent_bytes (c ∷ cs) = c ++ sent_bytes cs

-- Every call of `write` took at least one byte.
abbrev pub Progress : List WriteEvent → Type 0
Progress [] = Unit
Progress (write_error ∷ evs) = ⊥
Progress (wrote k ∷ evs) = (0 < k) × Progress evs

take-nil : (n : ℕ) → take {A = ℕ} n [] ≡ []
take-nil zero = refl
take-nil (suc n) = refl

take-add : (m n : ℕ) (s : Bytes) → take (m + n) s ≡ take m s ++ take n (drop m s)
take-add zero n s = ap (λ (k : ℕ). take k s) (omega arith)
take-add (suc m) n [] = ap (λ (l : Bytes). l) (take-nil (suc m + n) ∙ sym (take-nil n))
take-add (suc m) n (b ∷ s) =
    let e : suc m + n ≡ suc (m + n) = omega arith in
    ap (λ (k : ℕ). take k (b ∷ s)) e ∙ ap (λ (t : Bytes). b ∷ t) (take-add m n s)

taken_bounds : (k limit left : ℕ) → (taken k limit left ≤ limit) × (taken k limit left ≤ left)
unfolding taken
taken_bounds k limit left = ground arith

taken_pos : (k limit left : ℕ) → 0 < k → 0 < limit → 0 < left → 0 < taken k limit left
unfolding taken
taken_pos k limit left hk hl hr = ground arith

module _ (evs : List WriteEvent) (k limit : ℕ) (stream : Bytes) (sent total : ℕ) where
  abbrev amount : ℕ
  amount = taken k limit (total - sent)

  abbrev rest : List Bytes × Bool × List WriteEvent
  rest = send_loop evs limit (drop amount stream) (sent + amount) total

  send_loop_last :
      sent + amount ≡ total
      → send_loop (wrote k ∷ evs) limit stream sent total ≡ (take amount stream ∷ [], true, evs)
  unfolding send_loop
  send_loop_last e = rw ((==_iff (sent + amount) total).1 e)

  send_loop_more :
      (sent + amount == total) ≡ false
      → send_loop (wrote k ∷ evs) limit stream sent total
        ≡ (take amount stream ∷ rest.0, rest.1, rest.2)
  unfolding send_loop
  send_loop_more e = rw e

-- The chunks are never larger than the limit.
send_loop_limit :
    (evs : List WriteEvent) (limit : ℕ) (stream : Bytes) (sent total : ℕ)
    → All (λ c. length c ≤ limit) (send_loop evs limit stream sent total).0
send_loop_limit [] limit stream sent total = unfold send_loop in tt
send_loop_limit (write_error ∷ evs) limit stream sent total = unfold send_loop in tt
send_loop_limit (wrote k ∷ evs) limit stream sent total =
    let n = amount evs k limit stream sent total in
    let small : length (take n stream) ≤ limit =
      omega (arith, length-take n stream, taken_bounds k limit (total - sent)) in
    elim (Bool-cases (sent + n == total)) [
      | inl e ↦
          rw (send_loop_last evs k limit stream sent total ((==_iff (sent + n) total).0 e))
            (small, tt)
      | inr e ↦
          rw (send_loop_more evs k limit stream sent total e)
            (small, send_loop_limit evs limit (drop n stream) (sent + n) total)
    ]

-- When the loop says that all is sent, the calls together took the bytes that were left to send.
send_loop_sent :
    (evs : List WriteEvent) (limit : ℕ) (stream : Bytes) (sent total : ℕ)
    → sent ≤ total
    → (send_loop evs limit stream sent total).1 ≡ true
    → sent_bytes (send_loop evs limit stream sent total).0 ≡ take (total - sent) stream
send_loop_sent [] limit stream sent total h e = unfold send_loop in cc
send_loop_sent (write_error ∷ evs) limit stream sent total h e = unfold send_loop in cc
send_loop_sent (wrote k ∷ evs) limit stream sent total h e =
    let n = amount evs k limit stream sent total in
    let bound = taken_bounds k limit (total - sent) in
    elim (Bool-cases (sent + n == total)) [
      | inl t ↦
          let all : sent + n ≡ total = (==_iff (sent + n) total).0 t in
          let left : n ≡ total - sent = omega arith in
          rw (send_loop_last evs k limit stream sent total all)
            (append-nil (take n stream) ∙ ap (λ (m : ℕ). take m stream) left)
      | inr t ↦
          let step = send_loop_more evs k limit stream sent total t in
          let left : total - sent ≡ n + (total - (sent + n)) = omega (arith, bound) in
          rw step (
            ap (λ (s : Bytes). take n stream ++ s)
              (send_loop_sent evs limit (drop n stream) (sent + n) total (omega (arith, bound))
                (rw step at e))
            ∙ sym (take-add n (total - (sent + n)) stream)
            ∙ ap (λ (m : ℕ). take m stream) (sym left))
    ]

-- If every call takes at least one byte, as many calls as there are bytes to send are enough, and at
-- least the others are left.
send_loop_ends :
    (evs : List WriteEvent) (limit : ℕ) (stream : Bytes) (sent total : ℕ)
    → 0 < limit
    → sent < total
    → total - sent ≤ length evs
    → Progress evs
    → ((send_loop evs limit stream sent total).1 ≡ true)
      × (length evs ≤ length (send_loop evs limit stream sent total).2 + (total - sent))
      × Progress (send_loop evs limit stream sent total).2
send_loop_ends [] limit stream sent total hl h n p = absurd (omega arith)
send_loop_ends (write_error ∷ evs) limit stream sent total hl h n p = absurd p
send_loop_ends (wrote k ∷ evs) limit stream sent total hl h n p =
    let m = amount evs k limit stream sent total in
    let bound = taken_bounds k limit (total - sent) in
    let pos = taken_pos k limit (total - sent) p.0 hl (omega arith) in
    elim (Bool-cases (sent + m == total)) [
      | inl t ↦
          rw (send_loop_last evs k limit stream sent total ((==_iff (sent + m) total).0 t))
            (refl, omega arith, p.1)
      | inr t ↦
          let short : sent + m < total = ground (arith, bound, t) in
          let r =
            send_loop_ends evs limit (drop m stream) (sent + m) total hl short (omega (arith, pos))
              p.1 in
          rw (send_loop_more evs k limit stream sent total t) (r.0, omega (arith, pos, r.1), r.2)
    ]

send_loop_all :
    (evs : List WriteEvent) (limit : ℕ) (stream : Bytes) (total : ℕ)
    → (send_loop evs limit stream 0 total).1 ≡ true
    → sent_bytes (send_loop evs limit stream 0 total).0 ≡ take total stream
send_loop_all evs limit stream total e =
    let z : total - 0 ≡ total = omega arith in
    send_loop_sent evs limit stream 0 total (omega arith) e ∙ ap (λ (k : ℕ). take k stream) z

sent_bytes-append : (cs ds : List Bytes) → sent_bytes (cs ++ ds) ≡ sent_bytes cs ++ sent_bytes ds
sent_bytes-append [] ds = refl
sent_bytes-append (c ∷ cs) ds =
    ap (λ (s : Bytes). c ++ s) (sent_bytes-append cs ds)
    ∙ sym (append_assoc c (sent_bytes cs) (sent_bytes ds))

module _ (evs : List WriteEvent) (stream : Bytes) (data_size : ℕ) where
  abbrev head : ℕ
  head = length stream - data_size

  abbrev first : List Bytes × Bool × List WriteEvent
  first = send_loop evs max_msg_size stream 0 head

  abbrev second : List Bytes × Bool × List WriteEvent
  second = send_loop first.2 max_file_size (drop head stream) 0 data_size

  write_stream_cut : first.1 ≡ false → write_stream evs stream data_size ≡ (first.0, false, first.2)
  unfolding write_stream
  write_stream_cut e = rw e

  write_stream_head :
      first.1 ≡ true
      → (data_size == 0) ≡ true
      → write_stream evs stream data_size ≡ (first.0, true, first.2)
  unfolding write_stream
  write_stream_head e z = rw e (rw z)

  write_stream_both :
      first.1 ≡ true
      → (data_size == 0) ≡ false
      → write_stream evs stream data_size ≡ (first.0 ++ second.0, second.1, second.2)
  unfolding write_stream
  write_stream_both e z = rw e (rw z)

  wider :
      (cs : List Bytes)
      → All (λ c. length c ≤ max_file_size) cs
      → All (λ c. length c ≤ max_msg_size) cs
  wider [] h = tt
  wider (c ∷ cs) (hc, h) = (omega arith, wider cs h)

  head_limit : All (λ c. length c ≤ max_msg_size) first.0
  head_limit = send_loop_limit evs max_msg_size stream 0 head

  both_limit : All (λ c. length c ≤ max_msg_size) (first.0 ++ second.0)
  both_limit =
      All-append _ first.0 second.0 head_limit
        (wider second.0 (send_loop_limit first.2 max_file_size (drop head stream) 0 data_size))

  head_sent : first.1 ≡ true → sent_bytes first.0 ≡ take head stream
  head_sent e = send_loop_all evs max_msg_size stream head e

  both_sent :
      data_size < length stream
      → first.1 ≡ true
      → second.1 ≡ true
      → sent_bytes (first.0 ++ second.0) ≡ stream
  both_sent h e d =
      sent_bytes-append first.0 second.0
      ∙ ap (λ (s : Bytes). s ++ sent_bytes second.0) (head_sent e)
      ∙ ap (λ (s : Bytes). take head stream ++ s)
          (send_loop_all first.2 max_file_size (drop head stream) data_size d
            ∙ take_all data_size (drop head stream) (omega (arith, length-drop head stream)))
      ∙ take-append-drop head stream

  -- If the content is not the whole packet and the loops end with success, the bytes that the calls
  -- of `write` took are the packet, in order.
  pub write_stream_done :
      data_size < length stream
      → (write_stream evs stream data_size).1 ≡ true
      → sent_bytes (write_stream evs stream data_size).0 ≡ stream
  write_stream_done h d = elim (Bool-cases first.1) [
    | inr e ↦ absurd (cc (rw (write_stream_cut e) at d))
    | inl e ↦ elim (Bool-cases (data_size == 0)) [
      | inl z ↦ rw (write_stream_head e z) (head_sent e ∙ take_all head stream (ground (arith, z)))
      | inr z ↦ rw (write_stream_both e z) (both_sent h e (rw (write_stream_both e z) at d))
    ]
  ]

  write_stream_limit : All (λ c. length c ≤ max_msg_size) (write_stream evs stream data_size).0
  write_stream_limit = elim (Bool-cases first.1) [
    | inr e ↦ rw (write_stream_cut e) head_limit
    | inl e ↦ elim (Bool-cases (data_size == 0)) [
      | inl z ↦ rw (write_stream_head e z) head_limit
      | inr z ↦ rw (write_stream_both e z) both_limit
    ]
  ]

  write_stream_ends :
      data_size < length stream
      → Progress evs
      → length stream ≤ length evs
      → (write_stream evs stream data_size).1 ≡ true
  write_stream_ends h p n =
      let r =
        send_loop_ends evs max_msg_size stream 0 head (omega arith) (omega arith) (omega arith) p in
      elim (Bool-cases (data_size == 0)) [
        | inl z ↦ rw (write_stream_head r.0 z) refl
        | inr z ↦
            rw (write_stream_both r.0 z)
              (send_loop_ends first.2 max_file_size (drop head stream) 0 data_size (omega arith)
                (ground (arith, z)) (omega (arith, r.1)) r.2).0
      ]

  -- If the content is not the whole packet, every call of `write` takes at least one byte and there are
  -- as many calls as the packet has bytes, the loops end with success, the bytes that the calls took
  -- are the packet, in order, and no call took more than 2048 bytes.
  pub write_stream_complete :
      data_size < length stream
      → Progress evs
      → length stream ≤ length evs
      → ((write_stream evs stream data_size).1 ≡ true)
        × (sent_bytes (write_stream evs stream data_size).0 ≡ stream)
        × All (λ c. length c ≤ max_msg_size) (write_stream evs stream data_size).0
  write_stream_complete h p n =
      let done = write_stream_ends h p n in (done, write_stream_done h done, write_stream_limit)
