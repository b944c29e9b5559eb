-- ===== src/Prelude/Control.antt =====
-- The ways in which a C function ends: it returns; it reads or writes outside an object, frees
-- twice, or follows a bad pointer; or the fuel of a loop is used up.
use mathlib.Core.Bool.{Bool, true, false}
use mathlib.Core.Path.{◌≡◌, refl}
use Prim.Native.Nat.{ℕ, ◌+◌}

pub data Run {ℓ} (A : Type ℓ) : Type ℓ where
  ok : A → Run A
  fault : Run A
  stuck : Run A

infixl 5 ◌>>=◌ ◌>>◌
abbrev pub ◌>>=◌ {ℓ κ} : {A : Type ℓ} {B : Type κ} → Run A → (A → Run B) → Run B
ok a >>= f = f a
fault >>= f = fault
stuck >>= f = stuck

abbrev pub ◌>>◌ {ℓ} : {B : Type ℓ} → Run (Unit {0}) → Run B → Run B
m >> k = m >>= λ _. k

-- Memory access: a fault unless the test holds.
abbrev pub in_bounds : Bool → Run (Unit {0})
in_bounds true = ok tt
in_bounds false = fault

-- Whether the allocations of a call succeed, in the order in which they are made.
abbrev pub Mem : Type 0
Mem = ℕ → Bool

-- The allocations behind the first `k`.
abbrev pub later : ℕ → Mem → Mem
later k mem i = mem (k + i)

-- Memory does not run out.
abbrev pub plenty : Mem
plenty i = true

-- A chain that returns has a first part that returns, and goes on from there.
pub bind_ok :
    {A B : Type 0} (first : Run A) (rest : A → Run B) {result : B}
    → first >>= rest ≡ ok result
    → (a : A) × (first ≡ ok a) × (rest a ≡ ok result)
bind_ok fault rest e = cc
bind_ok stuck rest e = cc
bind_ok (ok a) rest e = (a, refl, e)
