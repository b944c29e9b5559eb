-- ===== src/Paths/Resolve.antt =====
-- f_path_resolve and f_valid_resolve of src/server/server_file_api.c.
use bsle.Prelude.{
  ◌+◌, ◌≤◌, ◌≡◌, refl, Bool, true, false, Option, none, some, Bool-cases, inl, inr, [], ◌∷◌, ◌++◌,
  arith, Bytes, length, length-append, drop, ok, fault, Mem, later, ltb, lt→ltb, le→ltb,
  if◌then◌else◌,
}
use bsle.Os.{Os}
use bsle.Paths.{
  path_max, starts_with, dirname, join_and_resolve_paths, accept, f_path_resolve,
  f_ver_path_resolve, f_valid_resolve,
}
use bsle.Paths.Join.{joined, join_paths-joined}

pub starts_with-append : (home rest : Bytes) → starts_with home (home ++ rest) ≡ true
unfolding starts_with
starts_with-append [] rest = refl
starts_with-append (c ∷ home) rest = ground (arith, starts_with-append home rest)

pub starts_with→append :
    (home path : Bytes) → starts_with home path ≡ true → path ≡ home ++ drop (length home) path
unfolding starts_with
starts_with→append [] path h = refl
starts_with→append (c ∷ home) [] h = cc
starts_with→append (c ∷ home) (d ∷ path) h = ground (arith, starts_with→append home path)

pub length-joined :
    (root child : Bytes) → length (joined root child) ≤ length root + length child + 1
length-joined root [] = omega (arith, length-append root (b'/' ∷ []))
length-joined root (c ∷ child) =
    ground (arith, length-append root (c ∷ child), length-append root (b'/' ∷ c ∷ child))

-- What a resolver may return: NULL, or a path that `Good` allows.
abbrev pub Resolved : (Bytes → Type 0) → Option Bytes → Type 0
Resolved Good none = Unit
Resolved Good (some path) = Good path

module _ (os : Os) where
  open os use {World, realpath}

  accept-inside :
      {Fits : Type 0} (mem : Mem) (home : Bytes) (room : Bool) (o : Option Bytes)
      → Fits
      → Resolved
          (λ path. (o ≡ some path) × (path ≡ home ++ drop (length home) path) × Fits)
          (accept os mem home (if room then o else none))
  unfolding accept
  accept-inside mem home false o f = tt
  accept-inside mem home true none f = tt
  accept-inside mem home true (some path) f = elim (Bool-cases (starts_with home path)) [
    | inl e ↦ elim (Bool-cases (mem 1)) [
      | inl m ↦ rw (e, m) (refl, starts_with→append home path e, f)
      | inr m ↦ rw (e, m) tt
    ]
    | inr e ↦ rw e tt
  ]

  resolve-joined :
      (mem : Mem) (w : World) (home child : Bytes)
      → length home + length child + 2 ≤ path_max
      → join_and_resolve_paths os mem w (some home) (length home) (some child) (length child)
        ≡ ok (if mem 0 then realpath w (joined home child) else none)
  unfolding join_and_resolve_paths
  resolve-joined mem w home child fits = rw (join_paths-joined mem home child) (
      rw
        (lt→ltb (length (joined home child)) path_max
          (omega (arith, fits, length-joined home child)))
        (elim (Bool-cases (mem 0)) [ inl m ↦ rw m | inr m ↦ rw m ]))

  -- Resolving never leaves the home directory's prefix and never overruns a buffer: for every child
  -- the call returns, and a path that it returns is what `realpath` gives for the joined path, begins
  -- with the home directory, and was asked for within PATH_MAX.
  pub f_path_resolve_inside :
      (mem : Mem) (w : World) (home child : Bytes)
      → (r : Option Bytes) × (f_path_resolve os mem w (some home) (some child) ≡ ok r)
        × Resolved
            (λ path.
              (realpath w (joined home child) ≡ some path)
              × (path ≡ home ++ drop (length home) path)
              × (length home + length child + 2 ≤ path_max))
            r
  unfolding f_path_resolve
  f_path_resolve_inside mem w home child =
      elim (Bool-cases (ltb path_max (length home + length child + 2))) [
        | inl long ↦ (none, rw long, tt)
        | inr short ↦
            let fits : length home + length child + 2 ≤ path_max = ground arith in
            let o : Option Bytes = if mem 0 then realpath w (joined home child) else none in
            (
              accept os mem home o,
              rw short (rw (resolve-joined mem w home child fits)),
              accept-inside mem home (mem 0) (realpath w (joined home child)) fits,
            )
      ]

  -- What the test of the prefix lets through: if the joined path fits and memory does not run out,
  -- any resolved path that begins with the bytes of the home directory is accepted, also where
  -- they end within a name, as for a directory beside it.
  pub f_path_resolve_prefix :
      (mem : Mem) (w : World) (home child rest : Bytes)
      → mem 0 ≡ true
      → mem 1 ≡ true
      → length home + length child + 2 ≤ path_max
      → realpath w (joined home child) ≡ some (home ++ rest)
      → f_path_resolve os mem w (some home) (some child) ≡ ok (some (home ++ rest))
  unfolding f_path_resolve accept
  f_path_resolve_prefix mem w home child rest m0 m1 fits real =
      rw (le→ltb path_max (length home + length child + 2) fits) (
        rw (resolve-joined mem w home child fits)
          (rw (m0, real) (rw (starts_with-append home rest, m1))))

  pub f_ver_path_resolve_prefix :
      (mem : Mem) (w : World) (home child rest : Bytes)
      → mem 0 ≡ true
      → mem 1 ≡ true
      → length home + length child + 2 ≤ path_max
      → realpath w (joined home child) ≡ some (home ++ rest)
      → f_ver_path_resolve os mem w (some home) (some child) ≡ ok (some (home ++ rest))
  unfolding f_ver_path_resolve
  f_ver_path_resolve_prefix mem w home child rest = f_path_resolve_prefix mem w home child rest

  -- A child that does not exist is not resolved.
  pub f_ver_path_resolve_missing :
      (mem : Mem) (w : World) (home child : Bytes)
      → mem 0 ≡ true
      → length home + length child + 2 ≤ path_max
      → realpath w (joined home child) ≡ none
      → f_ver_path_resolve os mem w (some home) (some child) ≡ ok none
  unfolding f_ver_path_resolve f_path_resolve accept
  f_ver_path_resolve_missing mem w home child m0 fits missing =
      rw (le→ltb path_max (length home + length child + 2) fits)
        (rw (resolve-joined mem w home child fits) (rw (m0, missing) refl))

  -- `f_valid_resolve` makes no test of the length: a path whose directory does not fit behind the home
  -- directory is written over the end of the array, if memory does not run out before.
  pub f_valid_resolve_overflow :
      (mem : Mem) (w : World) (home child : Bytes)
      → mem 0 ≡ true
      → path_max ≤ length (joined home (dirname child))
      → f_valid_resolve os mem w (some home) (some child) ≡ fault
  unfolding f_valid_resolve join_and_resolve_paths
  f_valid_resolve_overflow mem w home child m0 long =
      rw m0 (rw (join_paths-joined (later 1 mem) home (dirname child)) (rw (le→ltb _ _ long)))
