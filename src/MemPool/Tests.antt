-- ===== src/MemPool/Tests.antt =====
-- Runs of the pool on a small heap, and the theorems at concrete inputs.
use os_study_code.Base.{
  ℕ, ◌+◌, ◌*◌, ◌/◌, ◌^◌, ◌≤◌, ◌<◌, ◌≡◌, refl, ◌≢◌, inl, inr, Bool, true, none, some, List, [], ◌∷◌,
  arith, ltb, if◌then◌else◌, ◌==◌, Bool-cases,
}
use Prim.Native.Nat.{max}
use os_study_code.MemPool.{Heap, region, size_at, Block, State, split_at, carve}
use os_study_code.MemPool.Layout.{Apart}
use os_study_code.MemPool.Ops.{
  reset_pool, destroy_pool, palloc, pnalloc, pfree, create_pool, palloc_small, alloc,
}
use os_study_code.MemPool.Valid.{IsMalloc, IsValid}
use os_study_code.MemPool.Lifetime.{Reset}
use os_study_code.MemPool.Client.{Allocated, palloc-Allocated, carve-overrun}
use os_study_code.MemPool.Pfree.{Freed, pfree-Freed}
use os_study_code.MemPool.Teardown.{reset_pool-Reset}
use os_study_code.MemPool.Runs.{
  requests, perform, request, rewind, take, take_unaligned, give, calls, create-calls-destroy,
  palloc-palloc-Apart,
}

-- An allocator that takes the first multiple of 16 behind all that is allocated.
top : Heap → ℕ
top [] = 0
top (r ∷ h) = max (r.base + r.size) (top h)

bump : Heap → ℕ → ℕ
unfolding top
bump h n = let p = (top h / 16 + 1) * 16 in if ltb (p + n) (2 ^ 64) then p else 0

top-bound : (h : Heap) (a k : ℕ) → size_at h a ≡ some k → a + k ≤ top h
unfolding top size_at
top-bound [] a k e = cc
top-bound (r ∷ h) a k e = elim (Bool-cases (r.base == a)) [
  | inl hit ↦ ground arith
  | inr miss ↦ omega (arith, top-bound h a k (rw miss at e))
]

top-unused : (h : Heap) (a : ℕ) → top h < a → size_at h a ≡ none
unfolding top size_at
top-unused [] a lt = refl
top-unused (r ∷ h) a lt = ground (arith, top-unused h a)

bump_lem : (h : Heap) (n : ℕ) → bump h n ≢ 0 → (top h < bump h n) × (bump h n + n < 2 ^ 64)
unfolding bump
bump_lem h n ne = ground arith

bump-IsMalloc : IsMalloc bump
unfolding bump
bump-IsMalloc = record {
  unused = λ h n ne. top-unused h (bump h n) (bump_lem h n ne).0;
  aligned = λ h n. ground arith;
  below = λ h n ne. (bump_lem h n ne).1;
  apart = λ h n a k ne e. omega (arith, top-bound h a k e, bump_lem h n ne);
}

-- A pool of 512 bytes, as `ngx_create_pool` makes it on an empty heap.
abbrev small_pool : State
small_pool = record {
  heap = region 16 512 ∷ [];
  pool = record {
    blocks = record { addr = 16; last = 72; end = 528; failed = 0 } ∷ [];
    max = 456;
    current = 16;
    larges = [];
  };
}

created : create_pool bump 4096 [] 512 ≡ (some small_pool, small_pool.heap)
unfolding create_pool alloc bump top
created = refl

small_pool-IsValid : IsValid 512 small_pool
unfolding size_at
small_pool-IsValid = record {
  big = omega arith;
  whole = omega arith;
  max_fits = omega arith;
  blocks = (omega arith, tt);
  spread = (tt, tt);
  held = (refl, tt);
  on_chain = refl;
  owns = λ a. ground arith;
}

palloc-Allocated_example :
    (m : ℕ) × (t : State) × (palloc bump small_pool 100 ≡ some (m, t))
    × Allocated 512 100 true small_pool m t
palloc-Allocated_example = palloc-Allocated bump-IsMalloc 512 100 small_pool small_pool-IsValid

pfree-Freed_example :
    (done : Bool) × (t : State) × (pfree small_pool 4096 ≡ some (done, t))
    × Freed 512 small_pool 4096 done t
pfree-Freed_example = pfree-Freed 512 4096 small_pool small_pool-IsValid (omega arith)

reset_pool-Reset_example : (t : State) × (reset_pool small_pool ≡ some t) × Reset 512 small_pool t
reset_pool-Reset_example = reset_pool-Reset 512 small_pool small_pool-IsValid

create-calls-destroy_example :
    (s t : State) × (g : Heap) × (create_pool bump 4096 [] 512 ≡ (some s, s.heap))
    × (calls bump s (request (take 100) ∷ request (take 4000) ∷ rewind ∷ request (give 9) ∷ [])
        ≡ some t)
    × (destroy_pool t ≡ some g)
    × ((a : ℕ) → size_at g a ≡ size_at [] a)
unfolding bump top
create-calls-destroy_example =
    create-calls-destroy bump-IsMalloc 512 4096 []
      (request (take 100) ∷ request (take 4000) ∷ rewind ∷ request (give 9) ∷ []) (omega arith)
      (omega arith) (omega arith) (omega arith)

abbrev pool_at : ℕ → State
pool_at last = record small_pool {
  pool = record small_pool.pool {
    blocks = record { addr = 16; last = last; end = 528; failed = 0 } ∷ [];
  };
}

palloc-palloc-Apart_example : Apart 72 100 176 50
unfolding palloc palloc_small split_at carve requests perform pnalloc
palloc-palloc-Apart_example =
    palloc-palloc-Apart bump-IsMalloc 512 small_pool (pool_at 172) (pool_at 173) (pool_at 226) 100
      50 72 176 (take_unaligned 1 ∷ []) small_pool-IsValid (omega arith) refl (omega arith) refl
      (omega arith) refl (omega arith)

-- A pool of 60 bytes: its end is no multiple of 8.
carve-overrun_example :
    (m : ℕ) × (bs' : List Block) × (carve true 4000
        (record { addr = 16; last = 75; end = 76; failed = 0 } ∷ [])
      ≡ some (m, bs'))
    × (76 < m)
carve-overrun_example =
    carve-overrun 4000 (record { addr = 16; last = 75; end = 76; failed = 0 }) [] (omega arith)
      (omega arith) (omega arith) (omega arith)
