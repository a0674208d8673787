-- ===== src/MemPool/Zero.antt =====
-- `ngx_calloc` and `ngx_pcalloc`: the contents of the memory that they clear.
--
-- The contents of memory are a function from addresses to bytes, at the time when `ngx_palloc` or
-- `ngx_alloc` has returned: what those write to the headers and entries of the pool is in `State`.
use mathlib.Core.Option
use os_study_code.Base.{
  ℕ, ◌+◌, ◌≤◌, ◌<◌, ◌≡◌, ◌≢◌, ◌⊎◌, ◌&&◌, Option, some, ◌==◌, leb, ltb, if◌then◌else◌,
}
use os_study_code.MemPool.{Heap, State, size_at}
use os_study_code.MemPool.Layout.{Used}
use os_study_code.MemPool.Ops.{alloc, palloc}

abbrev pub Memory : Type 0
Memory = ℕ → ℕ

-- `ngx_memzero`
unfoldable pub memzero : (p n : ℕ) → Memory → Memory
memzero p n memory a = if leb p a && ltb a (p + n) then 0 else memory a

-- `if (p) ngx_memzero(p, size);`
abbrev pub cleared : (p n : ℕ) → Memory → Memory
cleared p n memory = if p == 0 then memory else memzero p n memory

module _ (malloc : Heap → ℕ → ℕ) where
  unfoldable pub calloc : Heap → Memory → ℕ → ℕ × Heap × Memory
  calloc h memory n = let (p, h') = alloc malloc h n in (p, h', cleared p n memory)

  unfoldable pub pcalloc : State → Memory → ℕ → Option (ℕ × State × Memory)
  pcalloc s memory n = Option.map (λ (p, t). (p, t, cleared p n memory)) (palloc malloc s n)

-- The range is in use before the allocation: in a block of the pool if the new memory is small, and
-- as a region of the heap if it is large.
abbrev pub InUse : (n : ℕ) → State → (a k : ℕ) → Type 0
InUse n s a k =
    ((n ≤ s.pool.max) × Used s.pool.blocks a k) ⊎ ((s.pool.max < n) × (size_at s.heap a ≡ some k))

-- The new memory is zero, and clearing it has changed nothing that was in use.
pub record Zeroed (n : ℕ) (s : State) (m : ℕ) (before after : Memory) : Type 0 where
  pub zero_bytes : (i : ℕ) → i < n → m ≢ 0 → after (m + i) ≡ 0
  pub others : (a k i : ℕ) → InUse n s a k → i < k → after (a + i) ≡ before (a + i)
