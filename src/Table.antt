-- ===== src/Table.antt =====
-- The hash table library that src/server/server_db.c links against: `htable_get`, `htable_set`,
-- `htable_del`, `htable_key_exists` and the iterator, for a table made with a compare callback. The
-- library is not part of the repository, so a table is a parameter, with its laws.
pub mod Entries
use bsle.Prelude.{◌≡◌, Bool, Option, none, some, List, [], ◌∷◌, if◌then◌else◌}

-- What the iterator yields first for a key.
abbrev pub find {ℓ κ} : {K : Type ℓ} {V : Type κ} → (K → K → Bool) → K → List (K × V) → Option V
find eq k [] = none
find eq k ((j, v) ∷ l) = if eq j k then some v else find eq k l

-- No key matches a later one.
abbrev pub Fresh {ℓ κ} : {K : Type ℓ} {V : Type κ} → (K → K → Bool) → List (K × V) → Type κ
Fresh eq [] = Unit
Fresh eq ((j, v) ∷ l) = (find eq j l ≡ none) × Fresh eq l

pub record Table (K V : Type 0) (eq : K → K → Bool) : Type 1 where
  pub T : Type 0
  pub create : T
  pub get : T → K → Option V
  pub set : T → K → V → T
  pub del : T → K → Option V × T
  pub entries : T → List (K × V)
  -- a new table has no key
  pub get-create : (k : K) → get create k ≡ none
  -- a stored value is found under its key, and the others are as before
  pub get-set : (t : T) (k j : K) (v : V) → get (set t k v) j ≡ (if eq k j then some v else get t j)
  -- a deleted value is returned, and no longer found
  pub del-get : (t : T) (k : K) → (del t k).0 ≡ get t k
  pub get-del : (t : T) (k j : K) → get (del t k).1 j ≡ (if eq k j then none else get t j)
  -- the iterator visits what is stored, each key once
  pub get-entries : (t : T) (k : K) → get t k ≡ find eq k (entries t)
  pub entries-Fresh : (t : T) → Fresh eq (entries t)
