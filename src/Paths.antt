-- ===== src/Paths.antt =====
-- src/server/server_file_api.c, the paths: joining, resolving, and keeping inside the home directory.
-- A `verified_path_t` is the path in it. A C string is its bytes, none of them 0; the byte behind them
-- is the terminator. Each call has its own allocations.
pub mod Join
pub mod Resolve
pub mod Valid
use bsle.Prelude.{
  ℕ, zero, suc, ◌+◌, ◌-◌, ◌^◌, ◌%◌, Bool, true, false, ◌&&◌, ◌||◌, Option, none, some, List, [],
  ◌∷◌, ◌++◌, ◌≡◌, Bytes, length, take, replicate, Run, ok, fault, ◌>>=◌, Mem, later, ltb, leb, ◌==◌,
  eq_bytes, if◌then◌else◌,
}
use bsle.Os.{Os}

-- PATH_MAX of linux/limits.h
abbrev pub path_max : ℕ
path_max = 4096

abbrev pub slash_plus_null : ℕ
slash_plus_null = 2

-- `s[i]` of a C string, its terminator included.
pub char_at : Bytes → ℕ → Run ℕ
char_at [] zero = ok 0
char_at [] (suc i) = fault
char_at (c ∷ s) zero = ok c
char_at (c ∷ s) (suc i) = char_at s i

-- `strncat(dst, src, n)` into an array of PATH_MAX bytes.
pub strncat : Bytes → Bytes → ℕ → Run Bytes
strncat dst src n =
    let joined = dst ++ take n src in if ltb (length joined) path_max then ok joined else fault

unfoldable pub join_paths : Mem → Option Bytes → ℕ → Option Bytes → ℕ → Run (Option Bytes)
unfolding strncat char_at
join_paths mem none root_length child child_length = ok none
join_paths mem (some root) root_length none child_length = ok none
join_paths mem (some root) root_length (some child) child_length = do
  r ← char_at root root_length
  c ← char_at child 0
  a ← strncat [] root (if r == b'/' then (root_length + 2 ^ 64 - 1) % 2 ^ 64 else root_length)
  b ← (if c == b'/' then ok a else strncat a (b'/' ∷ []) 2)
  joined ← strncat b child child_length
  ok (if mem 0 then some joined else none)

-- `strncmp(home, path, strlen(home))` is 0: the path begins with the bytes of the home directory.
pub starts_with : Bytes → Bytes → Bool
starts_with [] path = true
starts_with (h ∷ home) [] = false
starts_with (h ∷ home) (c ∷ path) = h == c && starts_with home path

strip_cons : ℕ → Bytes → Bytes
strip_cons c [] = if c == b'/' then [] else c ∷ []
strip_cons c (d ∷ r) = c ∷ d ∷ r

-- The path without the slashes at its end.
pub strip_slashes : Bytes → Bytes
unfolding strip_cons
strip_slashes [] = []
strip_slashes (c ∷ s) = strip_cons c (strip_slashes s)

-- What stands in front of the last slash, with it, and what stands behind it.
pub split_last : Bytes → Bytes → Bytes → Bytes × Bytes
split_last [] dir base = (dir, base)
split_last (c ∷ s) dir base =
    split_last s (if c == b'/' then dir ++ base ++ c ∷ [] else dir)
      (if c == b'/' then [] else base ++ c ∷ [])

dirname_of : Bytes × Bytes → Bytes
dirname_of ([], base) = b'.' ∷ []
dirname_of (c ∷ dir, base) = elim (strip_slashes (c ∷ dir)) [ [] ↦ b'/' ∷ [] | d ∷ r ↦ d ∷ r ]

-- `dirname` of libgen.h.
unfoldable pub dirname : Bytes → Bytes
unfolding dirname_of strip_slashes split_last
dirname [] = b'.' ∷ []
dirname (c ∷ s) = elim (strip_slashes (c ∷ s)) [
  | [] ↦ b'/' ∷ []
  | d ∷ r ↦ dirname_of (split_last (d ∷ r) [] [])
]

-- `basename` of libgen.h.
unfoldable pub basename : Bytes → Bytes
unfolding strip_slashes split_last
basename [] = b'.' ∷ []
basename (c ∷ s) = elim (strip_slashes (c ∷ s)) [
  | [] ↦ b'/' ∷ []
  | d ∷ r ↦ (split_last (d ∷ r) [] []).1
]

-- `f_path_repr`: the buffer as it stands after the call.
pub f_path_repr : Option Bytes → Option Bytes → ℕ → Option Bytes
f_path_repr none repr size = repr
f_path_repr (some p) none size = none
f_path_repr (some p) (some repr) size =
    if ltb path_max size || ltb size (length p)
    then some repr
    else some (p ++ replicate (size - length p) 0)

module _ (os : Os) where
  open os use {World, realpath}

  unfoldable pub join_and_resolve_paths :
      Mem → World → Option Bytes → ℕ → Option Bytes → ℕ → Run (Option Bytes)
  join_and_resolve_paths mem w none root_length child child_length = ok none
  join_and_resolve_paths mem w (some root) root_length none child_length = ok none
  join_and_resolve_paths mem w (some root) root_length (some child) child_length = do
    new_path ← join_paths mem (some root) root_length (some child) child_length
    ok (elim new_path [ none ↦ none | some path ↦ realpath w path ])

  -- The allocations are those of the join and the `verified_path_t`.
  unfoldable pub f_set_home_dir : Mem → World → Option Bytes → ℕ → Run (Option Bytes)
  f_set_home_dir mem w none dir_size = ok none
  f_set_home_dir mem w (some home) dir_size = do
    join_path ← join_and_resolve_paths mem w (some home) dir_size (some []) 0
    ok (elim join_path [ none ↦ none | some path ↦ if mem 1 then some path else none ])

  -- The checks on the resolved path at the end of `f_path_resolve`.
  accept : Mem → Bytes → Option Bytes → Option Bytes
  accept mem home none = none
  accept mem home (some path) =
      if starts_with home path then (if mem 1 then some path else none) else none

  pub f_path_resolve : Mem → World → Option Bytes → Option Bytes → Run (Option Bytes)
  f_path_resolve mem w none child = ok none
  f_path_resolve mem w (some home) none = ok none
  f_path_resolve mem w (some home) (some child) =
      if ltb path_max (length home + length child + slash_plus_null) then ok none else (do
        join_path ←
            join_and_resolve_paths mem w (some home) (length home) (some child) (length child)
        ok (accept mem home join_path))

  -- The second half of `f_valid_resolve`, with the directory resolved; the allocations are the second
  -- copy of the child, the join and the `verified_path_t`.
  valid_final : Mem → Bytes → Bytes → Bytes → Run (Option Bytes)
  valid_final mem home child dir =
      let base = basename child in
      if mem 0
      then (if eq_bytes base (b'.' ∷ []) then ok none else (do
        final_path ← join_paths (later 1 mem) (some dir) (length dir) (some base) (length base)
        ok (elim final_path [
          | none ↦ none
          | some path ↦ if starts_with home path then (if mem 2 then some path else none) else none
        ])))
      else ok none

  -- The allocations are the copy of the child, the first join, and those of the second half.
  pub f_valid_resolve : Mem → World → Option Bytes → Option Bytes → Run (Option Bytes)
  f_valid_resolve mem w none child = ok none
  f_valid_resolve mem w (some home) none = ok none
  f_valid_resolve mem w (some home) (some child) =
      let child_dir = dirname child in
      if mem 0
      then (do
        join_path ←
            join_and_resolve_paths (later 1 mem) w (some home) (length home) (some child_dir)
              (length child_dir)
        elim join_path [ none ↦ ok none | some dir ↦ valid_final (later 2 mem) home child dir ])
      else ok none

  pub f_ver_path_resolve : Mem → World → Option Bytes → Option Bytes → Run (Option Bytes)
  f_ver_path_resolve mem w none child = ok none
  f_ver_path_resolve mem w (some home) none = ok none
  f_ver_path_resolve mem w (some home) (some child) = f_path_resolve mem w (some home) (some child)

  pub f_ver_valid_resolve : Mem → World → Option Bytes → Option Bytes → Run (Option Bytes)
  f_ver_valid_resolve mem w none child = ok none
  f_ver_valid_resolve mem w (some home) none = ok none
  f_ver_valid_resolve mem w (some home) (some child) =
      f_valid_resolve mem w (some home) (some child)
