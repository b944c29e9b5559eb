-- ===== src/Release/Ended.antt =====
-- What is freed when a connection or the server ends: destroy_worker_pld of src/server/server_sock.c,
-- args_destroy of src/server/server_args.c, db_free_value_callback of src/server/server_db.c.
use bsle.Prelude.{append-nil, true, Option, none, some, List, [], ◌∷◌, ◌++◌, ok, ◌≡◌, refl, ◌∙◌}
use bsle.Release.{
  PathAt, ArgsAt, AccountAt, f_destroy_path, args_destroy, db_free_value_callback, Allocator,
  through,
}
use bsle.Release.Owned.{hash_blocks}
use bsle.Release.Blocks.{Step, buffer, structure, free_all, free_all-IsLeft, owned, IsLeft}
use bsle.Release.Freed.{hash_destroy-IsFreeing}
use bsle.Release.Freeing.{
  free_set-free, clear_free-step, IsFreeing, first_step, first_part, freed_none, returned,
}

abbrev path_blocks : Option PathAt → List Step
path_blocks none = []
path_blocks (some p) = buffer p.path ∷ structure p.at ∷ []

abbrev account_blocks : AccountAt → List Step
account_blocks p = buffer p.username ∷ (hash_blocks p.hash ++ (structure p.at ∷ []))

module _ (c : Allocator) where
  open c use {Heap, live, free}

  f_destroy_path-IsFreeing :
      (o : Option PathAt) (h : Heap)
      → IsFreeing c (path_blocks o) (some none) h (f_destroy_path c (some o) h)
  unfolding f_destroy_path free_all through
  f_destroy_path-IsFreeing none h = freed_none c _ _
  f_destroy_path-IsFreeing (some p) h = returned c some (
      first_step c (buffer p.path) _ (free_set-free c p.path h)
        λ h1. first_step c (structure p.at) _ (clear_free-step c p.at h1) λ h2. freed_none c _ _)

  args_destroy-IsFreeing :
      (p : ArgsAt) (h : Heap)
      → IsFreeing c
          (path_blocks p.home_directory ++ (structure p.at ∷ []))
          (some none)
          h
          (args_destroy c (some (some p)) h)
  unfolding args_destroy free_all through
  args_destroy-IsFreeing p h = returned c some (
      first_part c _ (f_destroy_path-IsFreeing p.home_directory h)
        λ h1. first_step c (structure p.at) _ (clear_free-step c p.at h1) λ h2. freed_none c _ _)

  db_free_value_callback-IsFreeing :
      (p : AccountAt) (h : Heap)
      → IsFreeing c (account_blocks p) tt h (db_free_value_callback c (some p) h)
  unfolding db_free_value_callback free_all
  db_free_value_callback-IsFreeing p h =
      first_step c (buffer p.username) _ (free_set-free c p.username h) λ h1.
        first_part c _ (hash_destroy-IsFreeing c p.hash h1)
          λ h2. first_step c (structure p.at) _ (clear_free-step c p.at h2) λ h3. freed_none c _ _

  -- Once the database has taken the home directory and main has cleared the pointer to it in the
  -- arguments, args_destroy frees the arguments alone: the directory and all else that is owned are
  -- as they were.
  args_destroy_consumed :
      (p : ArgsAt) (home : PathAt) (h : Heap)
      → owned c h (structure p.at ∷ path_blocks (some home)) ≡ true
      → (h' : Heap) × (args_destroy c (some (some (record p { home_directory = none }))) h
          ≡ ok (some none, h'))
        × (owned c h' (path_blocks (some home)) ≡ true)
  args_destroy_consumed p home h all =
      let (h', run, left, besides) =
        free_all-IsLeft c (structure p.at ∷ []) (path_blocks (some home)) h all in
      (
        h',
        (args_destroy-IsFreeing (record p { home_directory = none }) h).runs ∙ rw run refl,
        besides,
      )

  -- An account that a table owns is freed whole.
  db_free_value_callback-IsLeft :
      (p : AccountAt) (h : Heap)
      → owned c h (account_blocks p) ≡ true
      → (h' : Heap) × (db_free_value_callback c (some p) h ≡ ok (tt, h'))
        × IsLeft c (account_blocks p) h h'
  db_free_value_callback-IsLeft p h all =
      let (h', run, left, besides) =
        free_all-IsLeft c (account_blocks p) [] h (rw (append-nil (account_blocks p)) all) in
      (h', (db_free_value_callback-IsFreeing p h).runs ∙ rw run refl, left)
