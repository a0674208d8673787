-- ===== src/MemPool.antt =====
-- mem_pool/mem_pool_palloc.c, mem_pool/mem_pool_palloc.h, mem_pool/mem_core.h and
-- mem_pool/mem_alloc.c: the region allocator.
--
-- Addresses and sizes are 64-bit words, with NULL as 0. The chain of blocks that `d.next` links is
-- the list `blocks`, the pool's own block first; `current` is an address, as in the C code. The
-- list `larges` is the chain that `pool->large` heads. `none` as the result of an operation is
-- undefined behaviour: `pool->current` points to no block, or `free` is called on an address that
-- is not allocated. `malloc` is a parameter, and a heap lists what is allocated.
pub mod Blocks
pub mod Client
pub mod Zero
pub mod Extend
pub mod LargeAlloc
pub mod Layout
pub mod Lifetime
pub mod Ops
pub mod Owner
pub mod Small
pub mod Pfree
pub mod Runs
pub mod Teardown
mod Tests
pub mod Valid
use mathlib.Core.Option
use os_study_code.Base.{
  ℕ, ◌+◌, ◌-◌, ◌*◌, ◌/◌, ◌%◌, ◌^◌, Bool, Option, none, some, List, [], ◌∷◌, ltb, leb, ◌==◌,
  if◌then◌else◌,
}

-- What `malloc` has handed out and nobody has freed.
pub record Region : Type 0 where
  pub base : ℕ
  pub size : ℕ

abbrev pub Heap : Type 0
Heap = List Region

abbrev pub region : ℕ → ℕ → Region
region p n = record { base = p; size = n }

unfoldable pub size_at : Heap → ℕ → Option ℕ
size_at [] a = none
size_at (r ∷ h) a = if r.base == a then some r.size else size_at h a

unfoldable pub release : ℕ → Heap → Heap
release p [] = []
release p (r ∷ h) = if r.base == p then release p h else r ∷ release p h

-- `free(NULL)` does nothing.
unfoldable pub free : ℕ → Heap → Option Heap
unfolding size_at release
free p h = if p == 0 then some h else Option.map (λ _. release p h) (size_at h p)

abbrev pub word : ℕ
word = 2 ^ 64

abbrev pub sizeof_pool : ℕ
sizeof_pool = 56

abbrev pub sizeof_pool_data : ℕ
sizeof_pool_data = 32

abbrev pub sizeof_pool_large : ℕ
sizeof_pool_large = 16

-- `a - b` in `size_t`.
abbrev pub sub_word : ℕ → ℕ → ℕ
sub_word a b = (a + word - b) % word

-- `ngx_align_ptr(p, NGX_ALIGNMENT)`.
abbrev pub align_ptr : ℕ → ℕ
align_ptr p = (p + 7) % word / 8 * 8

pub record Block : Type 0 where
  pub addr : ℕ
  pub last : ℕ
  pub end : ℕ
  pub failed : ℕ

pub record Large : Type 0 where
  pub cell : ℕ
  pub alloc : ℕ

pub record Pool : Type 0 where
  pub blocks : List Block
  pub max : ℕ
  pub current : ℕ
  pub larges : List Large

pub record State : Type 0 where
  pub heap : Heap
  pub pool : Pool

-- The chain from the block at an address on, and what stands before it.
unfoldable pub split_at : ℕ → List Block → Option (List Block × List Block)
split_at p [] = none
split_at p (b ∷ bs) =
    if b.addr == p
    then some ([], b ∷ bs)
    else Option.map (λ (before, chain). (b ∷ before, chain)) (split_at p bs)

-- `(size_t) (pool->d.end - (u_char *) pool)`.
unfoldable pub pool_size : List Block → ℕ
pool_size [] = 0
pool_size (b ∷ bs) = sub_word b.end b.addr

abbrev pub start_of : Bool → ℕ → ℕ
start_of align m = if align then align_ptr m else m

-- The loop of `ngx_palloc_small`: the address and the chain with the block's `last` advanced.
unfoldable pub carve : Bool → ℕ → List Block → Option (ℕ × List Block)
carve align n [] = none
carve align n (b ∷ bs) =
    let m = start_of align b.last in
    if leb n (sub_word b.end m)
    then some (m, record b { last = (m + n) % word } ∷ bs)
    else Option.map (λ (p, bs'). (p, b ∷ bs')) (carve align n bs)

-- The loop of `ngx_palloc_block`: each block but the last counts a failure, and the one after a
-- block that had failed more than four times becomes the current one.
unfoldable pub count_failures : ℕ → List Block → ℕ × List Block
count_failures current [] = (current, [])
count_failures current (b ∷ []) = (current, b ∷ [])
count_failures current (b ∷ c ∷ bs) =
    let rest = count_failures (if ltb 4 b.failed then c.addr else current) (c ∷ bs) in
    (rest.0, record b { failed = b.failed + 1 } ∷ rest.1)

-- The search of `ngx_palloc_large` for an entry with no memory, among the first `k` ones.
unfoldable pub reuse : ℕ → ℕ → List Large → Option (List Large)
reuse p k [] = none
reuse p ℕ.zero (l ∷ ls) = none
reuse p (ℕ.suc k) (l ∷ ls) =
    if l.alloc == 0
    then some (record l { alloc = p } ∷ ls)
    else Option.map (λ ls'. l ∷ ls') (reuse p k ls)
