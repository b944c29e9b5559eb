-- ===== src/Release/Freed.antt =====
-- What ctrl_destroy of src/server/server_ctrl.c frees, and what it leaves.
use bsle.Prelude.{
  Bool, true, false, Option, none, some, List, [], ◌∷◌, ◌++◌, ok, ◌>>=◌, ◌>>◌, in_bounds, ◌≡◌, refl,
  if◌then◌else◌, ◌∙◌,
}
use bsle.Release.{
  Allocator, HashAt, ContentAt, RespAt, StdAt, PayloadType, UnionAt, null_at, std_at, user_at,
  WireAt, through, hash_destroy, f_destroy_content, destroy_resp, destroy_payload, cleared,
  destroy_wire, ctrl_destroy,
}
use bsle.Release.Owned.{
  hash_blocks, content_blocks, resp_blocks, payload_blocks, std_blocks, wire_blocks, fits,
  union_left, wire_left, all_blocks,
}
use bsle.Release.Blocks.{Step, buffer, structure, kept, free_all, free_all-IsLeft, owned, IsLeft}
use bsle.Release.Freeing.{
  free_set-free, clear_free-step, returning, IsFreeing, first_step, first_part, freed_none,
  returned, guard_assoc,
}

module _ (c : Allocator) where
  open c use {Heap, live, free}

  pub hash_destroy-IsFreeing :
      (o : Option HashAt) (h : Heap)
      → IsFreeing c (hash_blocks o) (some none) h (hash_destroy c (some o) h)
  unfolding hash_destroy free_all through
  hash_destroy-IsFreeing none h = freed_none c _ _
  hash_destroy-IsFreeing (some p) h = returned c some (
      first_step c (buffer p.array) _ (free_set-free c p.array h)
        λ h1. first_step c (structure p.at) _ (clear_free-step c p.at h1) λ h2. freed_none c _ _)

  f_destroy_content-IsFreeing :
      (o : Option ContentAt) (h : Heap)
      → IsFreeing c (content_blocks o) (some none) h (f_destroy_content c (some o) h)
  unfolding f_destroy_content free_all through
  f_destroy_content-IsFreeing none h = freed_none c _ _
  f_destroy_content-IsFreeing (some p) h = returned c some (
      first_part c _ (hash_destroy-IsFreeing p.hash h) λ h1.
        first_step c (buffer p.stream) _ refl λ h2.
          first_step c (buffer p.path) _ refl λ h3.
            first_step c (structure p.at) _ (clear_free-step c p.at h3) λ h4. freed_none c _ _)

  destroy_resp-IsFreeing :
      (o : Option RespAt) (h : Heap)
      → IsFreeing c (resp_blocks o) (some none) h (destroy_resp c (some o) h)
  unfolding destroy_resp free_all through
  destroy_resp-IsFreeing none h = freed_none c _ _
  destroy_resp-IsFreeing (some p) h = returned c some (
      first_part c _ (f_destroy_content-IsFreeing p.content h)
        λ h1. first_step c (structure p.at) _ (clear_free-step c p.at h1) λ h2. freed_none c _ _)

  destroy_payload-IsFreeing :
      (type : PayloadType) (u : UnionAt) (h : Heap)
      → fits type u ≡ true
      → IsFreeing c (payload_blocks type u) (union_left type u) h (destroy_payload c type u h)
  unfolding destroy_payload free_all
  destroy_payload-IsFreeing PayloadType.no_type u h e = freed_none c _ _
  destroy_payload-IsFreeing PayloadType.std_type (std_at p) h e =
      first_step c (buffer p.path) _ (free_set-free c p.path h) λ h1.
        first_step c (buffer p.byte_stream) _ (free_set-free c p.byte_stream h1)
          λ h2. first_step c (structure p.at) _ (clear_free-step c p.at h2) λ h3. freed_none c _ _
  destroy_payload-IsFreeing PayloadType.std_type null_at h e = cc
  destroy_payload-IsFreeing PayloadType.std_type (user_at p) h e = cc
  destroy_payload-IsFreeing PayloadType.user_type (user_at p) h e =
      first_step c (buffer p.username) _ (free_set-free c p.username h) λ h1.
        first_step c (buffer p.passwd) _ (free_set-free c p.passwd h1)
          λ h2. first_step c (structure p.at) _ (clear_free-step c p.at h2) λ h3. freed_none c _ _
  destroy_payload-IsFreeing PayloadType.user_type null_at h e = cc
  destroy_payload-IsFreeing PayloadType.user_type (std_at p) h e = cc

  last_step :
      (free_wire_payload : Bool) (p : WireAt) (h : Heap)
      → IsFreeing c
          ((if free_wire_payload then structure p.at else kept p.at) ∷ [])
          (wire_left free_wire_payload p)
          h
          (in_bounds (live h p.at)
            >> (if free_wire_payload
                then (free p.at h >>= λ h4. ok (none, h4))
                else ok (some (cleared p), h)))
  last_step true p h =
      rw (guard_assoc c (live h p.at) (free p.at h) (returning c {A = Option WireAt} none))
        (first_step c (structure p.at) _ refl λ h1. freed_none c _ h1)
  last_step false p h =
      rw (guard_assoc c (live h p.at) (ok h) (returning c {A = Option WireAt} (some (cleared p))))
        (first_step c (kept p.at) _ refl λ h1. freed_none c _ h1)

  destroy_wire-IsFreeing :
      (free_wire_payload : Bool) (p : WireAt) (h : Heap)
      → fits p.type p.payload ≡ true
      → IsFreeing c
          (wire_blocks free_wire_payload (some p))
          (wire_left free_wire_payload p)
          h
          (destroy_wire c free_wire_payload p h)
  unfolding destroy_wire
  destroy_wire-IsFreeing free_wire_payload p h e =
      first_part c _ (destroy_payload-IsFreeing p.type p.payload h e) λ h1.
        first_step c (buffer p.username) _ refl
          λ h2. first_step c (buffer p.passwd) _ refl λ h3. last_step free_wire_payload p h3

  ctrl_destroy-IsFreeing :
      (free_wire_payload : Bool) (p : WireAt) (o : Option RespAt) (h : Heap)
      → fits p.type p.payload ≡ true
      → IsFreeing c
          (all_blocks free_wire_payload p o)
          (some (wire_left free_wire_payload p), some none)
          h
          (ctrl_destroy c (some (some p)) (some o) free_wire_payload h)
  unfolding ctrl_destroy through
  ctrl_destroy-IsFreeing free_wire_payload p o h e =
      first_part c _ (destroy_resp-IsFreeing o h) λ h1.
        returned c (λ w. (w, some none))
          (returned c some (destroy_wire-IsFreeing free_wire_payload p h1 e))

  -- An answered request is destroyed without a fault: where the request's type names what its union
  -- holds, if it names anything, and the blocks of the response and of the request that are to be
  -- freed are alive and apart from each other and from the blocks `ts`, ctrl_destroy returns with
  -- both pointers NULL, or the request cleared; what is then alive is what was alive before and is
  -- not one of those blocks, and the blocks `ts` are as they were.
  pub ctrl_destroy-IsLeft :
      (free_wire_payload : Bool) (p : WireAt) (o : Option RespAt) (ts : List Step) (h : Heap)
      → fits p.type p.payload ≡ true
      → owned c h (all_blocks free_wire_payload p o ++ ts) ≡ true
      → (h' : Heap) × (ctrl_destroy c (some (some p)) (some o) free_wire_payload h
          ≡ ok ((some (wire_left free_wire_payload p), some none), h'))
        × IsLeft c (all_blocks free_wire_payload p o) h h'
        × (owned c h' ts ≡ true)
  ctrl_destroy-IsLeft free_wire_payload p o ts h e all =
      let (h', run, left, besides) =
        free_all-IsLeft c (all_blocks free_wire_payload p o) ts h all in
      (h', (ctrl_destroy-IsFreeing free_wire_payload p o h e).runs ∙ rw run refl, left, besides)

  -- A request whose type is NO_PAYLOAD and whose union holds the payload of a file request keeps that
  -- payload: where all blocks of the response, the request and the payload are alive and apart,
  -- ctrl_destroy sets both pointers to NULL, and the structure of the payload, its path, its bytes and
  -- the hash of them are still alive.
  pub ctrl_destroy_leaks :
      (p : WireAt) (s : StdAt) (o : Option RespAt) (h : Heap)
      → p.type ≡ PayloadType.no_type
      → p.payload ≡ std_at s
      → owned c h (all_blocks true p o ++ std_blocks s) ≡ true
      → (h' : Heap) × (ctrl_destroy c (some (some p)) (some o) true h
          ≡ ok ((some none, some none), h'))
        × (owned c h' (std_blocks s) ≡ true)
  ctrl_destroy_leaks p s o h e held all =
      let (h', run, left, besides) =
        ctrl_destroy-IsLeft true p o (std_blocks s) h (rw e refl) all in
      (h', run, besides)
