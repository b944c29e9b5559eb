-- ===== src/Tests/Heaps.antt =====
-- Runs of the theorems on what frees a request and its response.
use bsle.Prelude.{
  ℕ, Bool, true, none, some, Run, ok, fault, ◌≡◌, refl, ◌&&◌, ◌==◌, ltb, not, if◌then◌else◌, arith,
}
use bsle.Release.{
  Allocator, RespAt, StdAt, PayloadType, std_at, user_at, WireAt, ctrl_destroy, destroy_worker_pld,
}
use bsle.Release.Blocks.{owned, IsLeft}
use bsle.Release.Owned.{all_blocks, std_blocks}
use bsle.Release.Freed.{ctrl_destroy-IsLeft, ctrl_destroy_leaks}

-- A heap says which addresses are live, and freeing another one is a fault.
abbrev is_live : (ℕ → Bool) → ℕ → Bool
is_live h p = not (p == 0) && h p

abbrev free_block : ℕ → (ℕ → Bool) → Run (ℕ → Bool)
free_block p h =
    if p == 0 then ok h else if is_live h p then ok (λ q. not (q == p) && h q) else fault

free_block-live :
    (p : ℕ) (h : ℕ → Bool)
    → is_live h p ≡ true
    → (h' : ℕ → Bool) × (free_block p h ≡ ok h')
      × ((q : ℕ) → is_live h' q ≡ (is_live h q && not (q == p)))
free_block-live p h e = ((λ q. not (q == p) && h q), ground arith, λ q. ground arith)

abbrev heap : Allocator
heap = record {
  Heap = ℕ → Bool;
  live = is_live;
  free = free_block;
  live_null = λ h. refl;
  free_null = λ h. refl;
  free_live = free_block-live;
}

-- The addresses below 20 are live.
abbrev young : ℕ → Bool
young p = ltb p 20

abbrev listing : RespAt
listing = record {
  at = 1;
  content =
      some (record { at = 2; hash = some (record { at = 3; array = 4 }); stream = 5; path = 6 });
}

-- A request to remove a user, with no password.
abbrev removal : WireAt
removal = record {
  at = 7;
  username = 8;
  passwd = 9;
  type = PayloadType.user_type;
  payload = user_at (record { at = 10; username = 11; passwd = 0 });
}

abbrev stored : StdAt
stored = record { at = 12; path = 13; byte_stream = 14; hash_stream = 15 }

-- A request to store a file.
abbrev storing : WireAt
storing = record {
  at = 7;
  username = 8;
  passwd = 9;
  type = PayloadType.no_type;
  payload = std_at stored;
}

ctrl_destroy-IsLeft_example :
    (h : ℕ → Bool) × (ctrl_destroy heap (some (some removal)) (some (some listing)) true young
      ≡ ok ((some none, some none), h))
    × IsLeft heap (all_blocks true removal (some listing)) young h
    × (owned heap h (std_blocks stored) ≡ true)
unfolding owned
ctrl_destroy-IsLeft_example =
    ctrl_destroy-IsLeft heap true removal (some listing) (std_blocks stored) young refl refl

ctrl_destroy_leaks_example :
    (h : ℕ → Bool) × (ctrl_destroy heap (some (some storing)) (some (some listing)) true young
      ≡ ok ((some none, some none), h))
    × (owned heap h (std_blocks stored) ≡ true)
unfolding owned
ctrl_destroy_leaks_example =
    ctrl_destroy_leaks heap storing stored (some listing) young refl refl refl

-- A worker's payload that was freed before is not freed again.
worker_freed_twice : destroy_worker_pld heap (some (some (record { at = 20 }))) young ≡ fault
unfolding destroy_worker_pld
worker_freed_twice = refl
