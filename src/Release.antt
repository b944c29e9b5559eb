-- ===== src/Release.antt =====
-- What frees a request and its response: ctrl_destroy of src/server/server_ctrl.c, with destroy_resp of
-- src/server/server_db.c, f_destroy_content and f_destroy_path of src/server/server_file_api.c,
-- hash_destroy of src/server/server_crypto.c and destroy_worker_pld of src/server/server_sock.c.
-- Here a structure is what it points to, with its own address; a buffer is its address, 0 if it is NULL.
pub mod Blocks
pub mod Owned
pub mod Freeing
pub mod Freed
pub mod Ended
use bsle.Prelude.{
  ℕ, Bool, true, Option, none, some, Run, ok, fault, ◌>>=◌, ◌>>◌, in_bounds, ◌≡◌, ◌&&◌, ◌==◌, not,
  if◌then◌else◌,
}

-- The C library: which addresses are the start of a live block, and `free`.
pub record Allocator : Type 1 where
  pub Heap : Type 0
  pub live : Heap → ℕ → Bool
  pub free : ℕ → Heap → Run Heap
  -- NULL is no block, and freeing it does nothing.
  pub live_null : (h : Heap) → live h 0 ≡ Bool.false
  pub free_null : (h : Heap) → free 0 h ≡ ok h
  -- Freeing a live block ends that block and no other.
  pub free_live :
      (p : ℕ) (h : Heap)
      → live h p ≡ true
      → (h' : Heap) × (free p h ≡ ok h') × ((q : ℕ) → live h' q ≡ (live h q && not (q == p)))

-- `hash_t`
pub record HashAt : Type 0 where
  pub at : ℕ
  pub array : ℕ

-- `file_content_t`
pub record ContentAt : Type 0 where
  pub at : ℕ
  pub hash : Option HashAt
  pub stream : ℕ
  pub path : ℕ

-- `act_resp_t`, whose message is a constant
pub record RespAt : Type 0 where
  pub at : ℕ
  pub content : Option ContentAt

-- `verified_path_t`
pub record PathAt : Type 0 where
  pub at : ℕ
  pub path : ℕ

-- `args_t`
pub record ArgsAt : Type 0 where
  pub at : ℕ
  pub home_directory : Option PathAt

-- `user_account_t`
pub record AccountAt : Type 0 where
  pub at : ℕ
  pub username : ℕ
  pub hash : Option HashAt

-- `worker_payload_t`, of which the database is not owned
pub record WorkerAt : Type 0 where
  pub at : ℕ

-- `std_payload_t`
pub record StdAt : Type 0 where
  pub at : ℕ
  pub path : ℕ
  pub byte_stream : ℕ
  pub hash_stream : ℕ

-- `user_payload_t`
pub record UserAt : Type 0 where
  pub at : ℕ
  pub username : ℕ
  pub passwd : ℕ

-- `payload_type_t`. The first is what `calloc` leaves; of the code that reads a request only
-- read_client_user_payload sets another, the last.
pub data PayloadType : Type 0 where
  no_type std_type user_type : PayloadType

-- What the union of a request points to, whatever the request's type says.
pub data UnionAt : Type 0 where
  null_at : UnionAt
  std_at : StdAt → UnionAt
  user_at : UserAt → UnionAt

-- `wire_payload_t`
pub record WireAt : Type 0 where
  pub at : ℕ
  pub username : ℕ
  pub passwd : ℕ
  pub type : PayloadType
  pub payload : UnionAt

-- The request with its own members set to 0.
abbrev pub cleared : WireAt → WireAt
cleared p = record {
  at = p.at;
  username = 0;
  passwd = 0;
  type = PayloadType.no_type;
  payload = null_at;
}

module _ (c : Allocator) where
  open c use {Heap, live, free}

  -- A pointer to a pointer, which may both be NULL, in which case nothing is done.
  unfoldable pub through :
      {A : Type 0}
      → (A → Heap → Run (Option A × Heap))
      → Option (Option A)
      → Heap
      → Run (Option (Option A) × Heap)
  through f none h = ok (none, h)
  through f (some none) h = ok (some none, h)
  through f (some (some a)) h = f a h >>= λ r. ok (some r.0, r.1)

  -- `if (NULL != p) free(p)`
  unfoldable pub free_set : ℕ → Heap → Run Heap
  free_set p h = if p == 0 then ok h else free p h

  -- The structure at `p` is cleared, which needs it alive, and freed.
  unfoldable pub clear_free : ℕ → Heap → Run Heap
  clear_free p h = in_bounds (live h p) >> free p h

  unfoldable pub hash_destroy : Option (Option HashAt) → Heap → Run (Option (Option HashAt) × Heap)
  unfolding through free_set clear_free
  hash_destroy =
      through λ p h. free_set p.array h >>= λ h1. clear_free p.at h1 >>= λ h2. ok (none, h2)

  unfoldable pub f_destroy_path :
      Option (Option PathAt) → Heap → Run (Option (Option PathAt) × Heap)
  unfolding through free_set clear_free
  f_destroy_path =
      through λ p h. free_set p.path h >>= λ h1. clear_free p.at h1 >>= λ h2. ok (none, h2)

  unfoldable pub f_destroy_content :
      Option (Option ContentAt) → Heap → Run (Option (Option ContentAt) × Heap)
  unfolding through clear_free hash_destroy
  f_destroy_content = through λ p h. hash_destroy (some p.hash) h >>= λ r.
      free p.stream r.1 >>= λ h1.
      free p.path h1 >>= λ h2. clear_free p.at h2 >>= λ h3. ok (none, h3)

  unfoldable pub destroy_resp : Option (Option RespAt) → Heap → Run (Option (Option RespAt) × Heap)
  unfolding through clear_free f_destroy_content
  destroy_resp = through λ p h.
      f_destroy_content (some p.content) h >>= λ r. clear_free p.at r.1 >>= λ h1. ok (none, h1)

  unfoldable pub args_destroy : Option (Option ArgsAt) → Heap → Run (Option (Option ArgsAt) × Heap)
  unfolding through clear_free f_destroy_path
  args_destroy = through λ p h.
      f_destroy_path (some p.home_directory) h >>= λ r. clear_free p.at r.1 >>= λ h1. ok (none, h1)

  -- What the table of users calls on each account; it gets a copy of the pointer.
  unfoldable pub db_free_value_callback : Option AccountAt → Heap → Run (Unit {0} × Heap)
  unfolding free_set clear_free hash_destroy
  db_free_value_callback none h = ok (tt, h)
  db_free_value_callback (some p) h = free_set p.username h >>= λ h1.
      hash_destroy (some p.hash) h1 >>= λ r. clear_free p.at r.1 >>= λ h2. ok (tt, h2)

  unfoldable pub destroy_worker_pld :
      Option (Option WorkerAt) → Heap → Run (Option (Option WorkerAt) × Heap)
  unfolding through clear_free
  destroy_worker_pld = through λ p h. clear_free p.at h >>= λ h1. ok (none, h1)

  -- The structure in the union, by the request's type, after which the union is NULL; a type that the union does not fit is a fault.
  unfoldable pub destroy_payload : PayloadType → UnionAt → Heap → Run (UnionAt × Heap)
  unfolding free_set clear_free
  destroy_payload PayloadType.no_type u h = ok (u, h)
  destroy_payload PayloadType.std_type (std_at p) h = free_set p.path h >>= λ h1.
      free_set p.byte_stream h1 >>= λ h2. clear_free p.at h2 >>= λ h3. ok (null_at, h3)
  destroy_payload PayloadType.std_type null_at h = fault
  destroy_payload PayloadType.std_type (user_at p) h = fault
  destroy_payload PayloadType.user_type (user_at p) h = free_set p.username h >>= λ h1.
      free_set p.passwd h1 >>= λ h2. clear_free p.at h2 >>= λ h3. ok (null_at, h3)
  destroy_payload PayloadType.user_type null_at h = fault
  destroy_payload PayloadType.user_type (std_at p) h = fault

  unfoldable pub destroy_wire : Bool → WireAt → Heap → Run (Option WireAt × Heap)
  unfolding destroy_payload
  destroy_wire free_wire_payload p h = destroy_payload p.type p.payload h >>= λ r.
      free p.username r.1 >>= λ h2. free p.passwd h2 >>= λ h3.
      in_bounds (live h3 p.at)
      >> (if free_wire_payload
          then (free p.at h3 >>= λ h4. ok (none, h4))
          else ok (some (cleared p), h3))

  unfoldable pub ctrl_destroy :
      Option (Option WireAt)
      → Option (Option RespAt)
      → Bool
      → Heap
      → Run ((Option (Option WireAt) × Option (Option RespAt)) × Heap)
  unfolding destroy_resp destroy_wire through
  ctrl_destroy pp_payload pp_res free_wire_payload h = destroy_resp pp_res h >>= λ r.
      through (destroy_wire free_wire_payload) pp_payload r.1 >>= λ s. ok ((s.0, r.0), s.1)
