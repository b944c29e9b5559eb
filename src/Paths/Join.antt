-- ===== src/Paths/Join.antt =====
-- `join_paths` of src/server/server_file_api.c as its callers use it, with the length of the root.
use bsle.Prelude.{
  ◌≡◌, refl, some, none, [], ◌∷◌, ◌++◌, append_assoc, append-nil, arith, Bytes, length,
  length-append, take_all, ok, fault, Mem, ltb, ◌==◌, if◌then◌else◌,
}
use bsle.Paths.{path_max, char_at, strncat, join_paths}

-- The joined path: one slash is put between the parts, unless the child begins with one.
abbrev pub joined : Bytes → Bytes → Bytes
joined root [] = root ++ b'/' ∷ []
joined root (c ∷ child) = if c == b'/' then root ++ c ∷ child else root ++ b'/' ∷ c ∷ child

char_at-length : (s : Bytes) → char_at s (length s) ≡ ok 0
unfolding char_at
char_at-length [] = refl
char_at-length (c ∷ s) = char_at-length s

strncat-length :
    (dst src : Bytes)
    → strncat dst src (length src)
      ≡ (if ltb (length (dst ++ src)) path_max then ok (dst ++ src) else fault)
unfolding strncat
strncat-length dst src = rw (take_all (length src) src (omega arith))

strncat_slash :
    (dst : Bytes)
    → strncat dst (b'/' ∷ []) 2
      ≡ (if ltb (length (dst ++ b'/' ∷ [])) path_max then ok (dst ++ b'/' ∷ []) else fault)
unfolding strncat
strncat_slash dst = refl

-- Joining gives the joined path if it fits into PATH_MAX bytes with its terminator, and otherwise
-- writes behind the end of the array; the shorter pieces on the way never fail by themselves.
pub join_paths-joined :
    (mem : Mem) (root child : Bytes)
    → join_paths mem (some root) (length root) (some child) (length child) ≡ (
        if ltb (length (joined root child)) path_max
        then ok (if mem 0 then some (joined root child) else none)
        else fault)
unfolding join_paths char_at
join_paths-joined mem root [] = ground (
  arith,
  char_at-length root,
  strncat-length [] root,
  strncat_slash root,
  strncat-length (root ++ b'/' ∷ []) [],
  length-append root (b'/' ∷ []),
  append-nil (root ++ b'/' ∷ []),
)
join_paths-joined mem root (c ∷ child) = ground (
  arith,
  char_at-length root,
  strncat-length [] root,
  strncat_slash root,
  strncat-length root (c ∷ child),
  strncat-length (root ++ b'/' ∷ []) (c ∷ child),
  length-append root (b'/' ∷ []),
  length-append root (c ∷ child),
  length-append root (b'/' ∷ c ∷ child),
  append_assoc root (b'/' ∷ []) (c ∷ child),
)
