-- ===== src/Paths/Valid.antt =====
-- f_valid_resolve of src/server/server_file_api.c where it returns a path.
use bsle.Prelude.{
  ◌+◌, ◌≤◌, ◌<◌, ◌≡◌, refl, ap, ◌∙◌, true, false, some, [], ◌∷◌, ◌++◌, append_assoc, arith, Bytes,
  length, ok, plenty, lt→ltb, eq_bytes, Bool-cases, inl, inr, ◌==◌,
}
use bsle.Os.{Os}
use bsle.Paths.{
  path_max, starts_with, dirname, basename, valid_final, join_and_resolve_paths, f_valid_resolve,
  f_ver_valid_resolve,
}
use bsle.Paths.Join.{joined, join_paths-joined}
use bsle.Paths.Resolve.{starts_with-append, length-joined}

-- What joining puts behind the root.
pub joined_behind : (root child : Bytes) → (rest : Bytes) × (joined root child ≡ root ++ rest)
joined_behind root [] = (b'/' ∷ [], refl)
joined_behind root (c ∷ child) = elim (Bool-cases (c == b'/')) [
  | inl e ↦ (c ∷ child, rw e)
  | inr e ↦ (b'/' ∷ c ∷ child, rw e)
]

starts_with-joined : (home rest base : Bytes) → starts_with home (joined (home ++ rest) base) ≡ true
starts_with-joined home rest base =
    let (behind, e) = joined_behind (home ++ rest) base in
    ap (starts_with home) (e ∙ append_assoc home rest behind)
    ∙ starts_with-append home (rest ++ behind)

module _ (os : Os) where
  open os use {World, realpath}

  -- The directory of the child is found below the home directory, the child's last name is not a dot,
  -- and both joins fit.
  pub record IsPlace (w : World) (home child rest : Bytes) : Type 0 where
    pub fits : length home + length (dirname child) + 2 ≤ path_max
    pub real : realpath w (joined home (dirname child)) ≡ some (home ++ rest)
    pub named : eq_bytes (basename child) (b'.' ∷ []) ≡ false
    pub room : length (joined (home ++ rest) (basename child)) < path_max

  valid_final_place :
      (w : World) (home child rest : Bytes)
      → IsPlace w home child rest
      → valid_final os plenty home child (home ++ rest)
        ≡ ok (some (joined (home ++ rest) (basename child)))
  unfolding valid_final
  valid_final_place w home child rest place = rw place.named (
      rw (join_paths-joined plenty (home ++ rest) (basename child))
        (rw (lt→ltb _ _ place.room) (rw (starts_with-joined home rest (basename child)) refl)))

  -- The path that is returned is the child's last name in its resolved directory.
  pub f_ver_valid_resolve_place :
      (w : World) (home child rest : Bytes)
      → IsPlace w home child rest
      → f_ver_valid_resolve os plenty w (some home) (some child)
        ≡ ok (some (joined (home ++ rest) (basename child)))
  unfolding f_ver_valid_resolve f_valid_resolve join_and_resolve_paths
  f_ver_valid_resolve_place w home child rest place =
      let fits : length (joined home (dirname child)) < path_max =
        omega (arith, place.fits, length-joined home (dirname child)) in
      rw (join_paths-joined plenty home (dirname child))
        (rw (lt→ltb _ _ fits) (rw place.real (valid_final_place w home child rest place)))
