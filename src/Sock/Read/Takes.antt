-- ===== src/Sock/Read/Takes.antt =====
-- The readers of src/server/server_sock.c on bytes that arrive: a field, a string, and one after the
-- other.
use bsle.Prelude.{
  ◌+◌, ℕ, suc, ◌*◌, ◌<◌, ◌≡◌, ◌≢◌, refl, ap, sym, ◌∙◌, true, false, none, some, [], ◌∷◌, ◌++◌,
  arith, Bytes, length, Run, ok, fault, stuck, Mem, later, lt→ltb, append-nil, Lacks,
}
use bsle.Db.Codec.Rows.{c_string_lem}
use bsle.Sock.{Conn, got, make_byte_array, finish_array}
use bsle.Sock.Stream.{arrive, read_stream-arrive, suc_ne_zero}
use bsle.Sock.Read.{Reader, Reading, value, failed, pure, ◌>>=◌, field, array_field}

pub arrive-append : (s t : Bytes) (conn : Conn) → arrive (s ++ t) conn ≡ arrive s (arrive t conn)
arrive-append [] t conn = refl
arrive-append (b ∷ s) t conn = ap (λ (c : Conn). got b ∷ c) (arrive-append s t conn)

-- The reader takes exactly these bytes, and gives this value.
abbrev pub Takes : {A : Type 0} → Reader A → Bytes → A → Type 0
Takes m s a = (conn : Conn) → m (arrive s conn) ≡ ok (value a conn)

pub pure-Takes : {A : Type 0} (a : A) → Takes (pure a) [] a
pure-Takes a conn = refl

pub bind-Takes :
    {A B : Type 0} (m : Reader A) (f : A → Reader B) (s t : Bytes) {a : A} {b : B}
    → Takes m s a
    → Takes (f a) t b
    → Takes (m >>= f) (s ++ t) b
bind-Takes {A} {B} m f s t {a} {b} first then_rest conn = rw (arrive-append s t conn) (
    ap
      (λ (o : Run (Reading A)). elim o [
        | ok r ↦ elim r [ value a conn' ↦ f a conn' | failed code conn' ↦ ok (failed code conn') ]
        | fault ↦ fault
        | stuck ↦ stuck
      ])
      (first (arrive t conn))
    ∙ then_rest conn)

-- The last reader of a chain, with what is made of its value.
pub map-Takes :
    {A B : Type 0} (m : Reader A) (g : A → B) (s : Bytes) {a : A}
    → Takes m s a
    → Takes (m >>= (λ x. pure (g x))) s (g a)
map-Takes m g s {a} first =
    let both = bind-Takes m (λ x. pure (g x)) s [] first (pure-Takes (g a)) in
    λ conn.
      ap (λ (t : Bytes). (m >>= (λ x. pure (g x))) (arrive t conn)) (sym (append-nil s)) ∙ both conn

pub value-Takes :
    {A : Type 0} (m : Reader A) (s : Bytes) {a b : A} → a ≡ b → Takes m s a → Takes m s b
value-Takes {A} m s e first conn = first conn ∙ ap (λ (x : A). ok (value x conn)) e

-- Memory does not run out.
abbrev pub Roomy : Mem → Type 0
Roomy mem = (i : ℕ) → mem i ≡ true

module _ (mem : Mem) (room : Roomy mem) where
  pub field-Takes : (s : Bytes) → Takes (field mem (length s)) s s
  unfolding field
  field-Takes s conn = rw (read_stream-arrive mem s conn (room 0) (room 1))

  pub sized-Takes : (n : ℕ) (s : Bytes) → length s ≡ n → Takes (field mem n) s s
  sized-Takes n s e = rw (← e) (field-Takes s)

  pub text-Takes :
      (s : Bytes) → s ≢ [] → Lacks 0 s → Takes (array_field mem (length s) true) s (some s)
  unfolding array_field make_byte_array
  text-Takes [] ne l conn = absurd (ne refl)
  text-Takes (b ∷ s) ne l conn =
      let n = suc (length s) in
      let read = read_stream-arrive (later 1 mem) (b ∷ s) conn (room 1) (room 2) in
      let wide : n < n * 2 = omega arith in
      rw (room 0) (
        rw (read, finish_array)
          (rw (suc_ne_zero (length s)) (rw (lt→ltb n (n * 2) wide, c_string_lem (b ∷ s) l))))

  pub empty-Takes : Takes (array_field mem 0 false) [] none
  unfolding array_field make_byte_array
  empty-Takes conn = refl

  pub block-Takes :
      (b : ℕ) (s : Bytes) → Takes (array_field mem (suc (length s)) false) (b ∷ s) (some (b ∷ s))
  unfolding array_field make_byte_array
  block-Takes b s conn =
      let read = read_stream-arrive (later 1 mem) (b ∷ s) conn (room 1) (room 2) in
      rw (room 0) (rw (read, finish_array) (rw (suc_ne_zero (length s))))

pub later-Roomy : (mem : Mem) → Roomy mem → (k : ℕ) → Roomy (later k mem)
later-Roomy mem room k i = room (k + i)
