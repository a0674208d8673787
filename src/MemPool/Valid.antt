-- ===== src/MemPool/Valid.antt =====
-- The invariant of a pool, and what it needs of `malloc`.
use os_study_code.Base.{
  ℕ, ◌+◌, ◌%◌, ◌^◌, ◌≤◌, ◌<◌, ◌≡◌, refl, ◌≢◌, true, none, some, List, [], ◌∷◌, arith, ◌==◌,
  if◌then◌else◌,
}
use os_study_code.MemPool.{Heap, region, size_at, Block, State, pool_size, sizeof_pool}
use os_study_code.MemPool.Layout.{addrs, has, Apart, Clear, Spread, AllBlocks}
use os_study_code.MemPool.Owner.{cells, owned, Owns}

-- What the code relies on: memory that is returned is aligned to 16 bytes, lies below the end of
-- the address space and meets no region that is still allocated.
pub record IsMalloc (malloc : Heap → ℕ → ℕ) : Type 0 where
  pub unused : (h : Heap) (n : ℕ) → malloc h n ≢ 0 → size_at h (malloc h n) ≡ none
  pub aligned : (h : Heap) (n : ℕ) → malloc h n % 16 ≡ 0
  pub below : (h : Heap) (n : ℕ) → malloc h n ≢ 0 → malloc h n + n < 2 ^ 64
  pub apart :
      (h : Heap) (n a k : ℕ) → malloc h n ≢ 0 → size_at h a ≡ some k → Apart a k (malloc h n) n

-- Regions of one size at all these addresses.
abbrev pub Held : ℕ → Heap → List ℕ → Type 0
Held size h [] = Unit
Held size h (a ∷ xs) = (size_at h a ≡ some size) × Held size h xs

-- Every region of `h` is one of `g`.
abbrev pub Grows : Heap → Heap → Type 0
Grows h g = (a k : ℕ) → size_at h a ≡ some k → size_at g a ≡ some k

-- A pool whose blocks have `size` bytes each, a multiple of 8 that a pool header fits.
pub record IsValid (size : ℕ) (s : State) : Type 0 where
  pub big : sizeof_pool ≤ size
  pub whole : size % 8 ≡ 0
  pub max_fits : s.pool.max + sizeof_pool ≤ size
  pub blocks : AllBlocks size s.pool.blocks
  pub spread : Spread size (addrs s.pool.blocks)
  pub held : Held size s.heap (addrs s.pool.blocks)
  pub on_chain : has s.pool.current (addrs s.pool.blocks) ≡ true
  pub owns : Owns s.heap (owned s)

pub Held-Grows : (size : ℕ) (h g : Heap) (xs : List ℕ) → Grows h g → Held size h xs → Held size g xs
Held-Grows size h g [] grows held = tt
Held-Grows size h g (x ∷ xs) grows held = (grows x size held.0, Held-Grows size h g xs grows held.1)

cells-Grows : (h g : Heap) (a : ℕ) → Grows h g → cells h a ≤ cells g a
cells-Grows h g a grows = grind (arith, grows)

pub IsValid-Grows :
    (size : ℕ) (s : State) (g : Heap)
    → Grows s.heap g
    → IsValid size s
    → IsValid size (record s { heap = g })
IsValid-Grows size s g grows v = record {
  big = v.big;
  whole = v.whole;
  max_fits = v.max_fits;
  blocks = v.blocks;
  spread = v.spread;
  held = Held-Grows size s.heap g (addrs s.pool.blocks) grows v.held;
  on_chain = v.on_chain;
  owns = λ a. omega (arith, v.owns a, cells-Grows s.heap g a grows);
}

pub Clear-Held :
    (size : ℕ) (h : Heap) (p : ℕ) (xs : List ℕ)
    → ((a k : ℕ) → size_at h a ≡ some k → Apart a k p size)
    → Held size h xs
    → Clear size p xs
Clear-Held size h p [] apart held = tt
Clear-Held size h p (x ∷ xs) apart held =
    (omega (arith, apart x size held.0), Clear-Held size h p xs apart held.1)

pub pool_size_lem :
    (size p : ℕ) (bs : List Block)
    → AllBlocks size bs
    → has p (addrs bs) ≡ true
    → pool_size bs ≡ size
unfolding pool_size
pool_size_lem size p [] bl h = cc
pool_size_lem size p (b ∷ bs) bl h = omega (arith, bl.0.end_at, bl.0.below)

-- A new region is one more cell, and the rest of the heap stays.
pub size_at-region :
    (p n : ℕ) (h : Heap) (a : ℕ)
    → size_at (region p n ∷ h) a ≡ (if p == a then some n else size_at h a)
unfolding size_at
size_at-region p n h a = refl

pub Grows-region : (p n : ℕ) (h : Heap) → size_at h p ≡ none → Grows h (region p n ∷ h)
unfolding size_at
Grows-region p n h new a k e = ground arith
