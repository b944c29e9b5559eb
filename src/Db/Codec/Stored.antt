-- ===== src/Db/Codec/Stored.antt =====
-- verify_magic, get_stored_data and get_stored_hash of src/server/server_db.c.
use bsle.Prelude.{
  le→ltb, ℕ, Option, ◌+◌, ◌-◌, ◌≡◌, ◌∙◌, ap, sym, refl, Bool-cases, inl, inr, true, some, Bytes,
  ◌++◌, length, take, drop, take-append-drop, take_all, length-drop, Mem, arith, eq_bytes→eq, ltb,
  ◌==◌, ==_iff,
}
use bsle.Server.{sha256_digest_length}
use bsle.Db.Codec.RoundTrip.{get_stored_data_magic}
use bsle.Db.Codec.{magic_bytes, verify_magic, get_stored_data, get_stored_hash}

-- Taken apart: the magic bytes, and a text whose length is given.
pub record IsStored (stream text : Bytes) (n : ℕ) : Type 0 where
  pub split : stream ≡ magic_bytes ++ text
  pub size : n ≡ length text

verify_magic-split :
    (stream : Bytes)
    → verify_magic (some (stream, length stream)) ≡ true
    → stream ≡ magic_bytes ++ drop 4 stream
unfolding verify_magic
verify_magic-split stream e = elim (Bool-cases (ltb (length stream) 4)) [
  | inl short ↦ cc (rw short at e)
  | inr long ↦
      let magic : take 4 stream ≡ magic_bytes =
        eq_bytes→eq (take 4 stream) magic_bytes (rw long at e) in
      sym (take-append-drop 4 stream) ∙ ap (λ (l : Bytes). l ++ drop 4 stream) magic
]

same_parts :
    {o : Option (Bytes × ℕ)} {a b : Bytes} {m n : ℕ}
    → o ≡ some (a, m)
    → o ≡ some (b, n)
    → (a ≡ b) × (m ≡ n)
same_parts e e' = (ground (arith, e, e'), ground (arith, e, e'))

pub get_stored_data-IsStored :
    (mem : Mem) (stream text : Bytes) (n : ℕ)
    → get_stored_data mem (some (stream, length stream)) ≡ some (text, n)
    → IsStored stream text n
unfolding get_stored_data
get_stored_data-IsStored mem stream text n e =
    elim (Bool-cases (verify_magic (some (stream, length stream)))) [
      | inr bad ↦ cc (rw (bad, get_stored_data) at e)
      | inl magic ↦ elim (Bool-cases (mem 0)) [
        | inr m ↦ cc (rw m at (rw (magic, get_stored_data) at e))
        | inl m ↦
            let (same, size) = same_parts refl (rw m at (rw (magic, get_stored_data) at e)) in
            let rest = drop 4 stream in
            let whole = take_all (length stream - 4) rest (omega (arith, length-drop 4 stream)) in
            let text_rest : text ≡ rest = sym same ∙ whole in
            record {
              split =
                  verify_magic-split stream magic
                  ∙ ap (λ (l : Bytes). magic_bytes ++ l) (sym text_rest);
              size = omega (arith, size, ap length text_rest, length-drop 4 stream);
            }
      ]
    ]

pub get_stored_hash-IsStored :
    (mem : Mem) (stream text : Bytes) (n : ℕ)
    → get_stored_hash mem (some (stream, length stream)) ≡ some (text, n)
    → IsStored stream text n
unfolding get_stored_hash
get_stored_hash-IsStored mem stream text n e =
    elim (Bool-cases (verify_magic (some (stream, length stream)))) [
      | inr bad ↦ cc (rw (bad, get_stored_hash) at e)
      | inl magic ↦ elim (Bool-cases (length stream == sha256_digest_length + 4)) [
        | inr m ↦ cc (rw m at (rw (magic, get_stored_hash) at e))
        | inl m ↦
            get_stored_data-IsStored mem stream text n
              (rw (magic, get_stored_data) (rw m at (rw (magic, get_stored_hash) at e)))
      ]
    ]

-- The digest behind the magic bytes is taken off again, when the one allocation succeeds.
pub get_stored_hash_magic :
    (mem : Mem) (digest : Bytes)
    → length digest ≡ 32
    → mem 0 ≡ true
    → get_stored_hash mem (some (magic_bytes ++ digest, length (magic_bytes ++ digest)))
      ≡ some (digest, length digest)
unfolding get_stored_hash verify_magic
get_stored_hash_magic mem digest full m =
    let size = length (magic_bytes ++ digest) in
    let long = le→ltb size 4 (omega arith) in
    rw long (
      rw ((==_iff size 36).1 (omega (arith, full)))
        (rw (long, get_stored_data) at (get_stored_data_magic mem digest m)))
