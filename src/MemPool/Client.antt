-- ===== src/MemPool/Client.antt =====
-- Allocation as a client sees it: `ngx_palloc` and `ngx_pnalloc`, and runs of requests.
use os_study_code.Base.{
  ℕ, zero, suc, ◌+◌, ◌%◌, ◌≤◌, ◌<◌, ◌≡◌, refl, ◌⊎◌, inl, inr, Bool, true, false, none, some, List,
  [], ◌∷◌, arith, ◌==◌, leb, Bool-cases,
}
use os_study_code.MemPool.{Heap, free, Block, Large, State, carve, align_ptr, word}
use os_study_code.MemPool.Layout.{Used}
use os_study_code.MemPool.Ops.{palloc, pnalloc, pfree, clear_large}
use os_study_code.MemPool.Owner.{live, residue}
use os_study_code.MemPool.Valid.{IsMalloc, IsValid}
use os_study_code.MemPool.Small.{Small}
use os_study_code.MemPool.Small.Steps.{palloc_small-Small}
use os_study_code.MemPool.LargeAlloc.{Larger, IsValid-larges}
use os_study_code.MemPool.LargeAlloc.Steps.{palloc_large-Larger, Small-kept}
use os_study_code.MemPool.Pfree.{pfree-Freed}

-- What `ngx_palloc` (`align`) or `ngx_pnalloc` has done: small memory up to `max` bytes, large
-- memory above.
abbrev pub Allocated : (size n : ℕ) → Bool → State → ℕ → State → Type 0
Allocated size n align s m t =
    ((n ≤ s.pool.max) × Small size n align s m t) ⊎ ((s.pool.max < n) × Larger size n s m t)

module _ {malloc : Heap → ℕ → ℕ} (ok : IsMalloc malloc) (size n : ℕ) (s : State)
    (v : IsValid size s) where
  -- On a valid pool ngx_palloc runs without a fault and keeps the pool valid. Up to max bytes it
  -- returns NULL and leaves the chain, or it grants unused bytes of a block, aligned to 8 bytes,
  -- that meet nothing in use; above, it returns NULL or a new region that the pool owns. It
  -- changes nothing that the pool does not own.
  pub palloc-Allocated :
      (m : ℕ) × (t : State) × (palloc malloc s n ≡ some (m, t)) × Allocated size n true s m t
  unfolding palloc
  palloc-Allocated = elim (Bool-cases (leb n s.pool.max)) [
    | inl le ↦
        let (m, t, e, w) = palloc_small-Small ok size n true s v (ground (arith, v.max_fits)) in
        rw le (m, t, e, inl (ground arith, w))
    | inr gt ↦
        let (m, t, e, w) = palloc_large-Larger ok size n s v in
        rw gt (m, t, e, inr (ground arith, w))
  ]

  -- On a valid pool ngx_pnalloc runs without a fault and does what ngx_palloc does, with no
  -- promise of alignment.
  pub pnalloc-Allocated :
      (m : ℕ) × (t : State) × (pnalloc malloc s n ≡ some (m, t)) × Allocated size n false s m t
  unfolding pnalloc
  pnalloc-Allocated = elim (Bool-cases (leb n s.pool.max)) [
    | inl le ↦
        let (m, t, e, w) = palloc_small-Small ok size n false s v (ground (arith, v.max_fits)) in
        rw le (m, t, e, inl (ground arith, w))
    | inr gt ↦
        let (m, t, e, w) = palloc_large-Larger ok size n s v in
        rw gt (m, t, e, inr (ground arith, w))
  ]

-- What a step of a client keeps.
pub record Kept (size : ℕ) (s t : State) : Type 0 where
  pub valid : IsValid size t
  pub foreign : (a : ℕ) → residue t a ≡ residue s a
  pub kept : (a k : ℕ) → Used s.pool.blocks a k → Used t.pool.blocks a k

Small-Kept : {size n m : ℕ} {align : Bool} {s t : State} → Small size n align s m t → Kept size s t
Small-Kept w = record { valid = w.valid; foreign = w.foreign; kept = Small-kept w }

pub Larger-Kept : {size n m : ℕ} {s t : State} → Larger size n s m t → Kept size s t
Larger-Kept w = record { valid = w.valid; foreign = w.foreign; kept = w.kept }

pub Allocated-Kept :
    (size n m : ℕ) (align : Bool) (s t : State) → Allocated size n align s m t → Kept size s t
Allocated-Kept size n m align s t (inl (le, w)) = Small-Kept w
Allocated-Kept size n m align s t (inr (gt, w)) = Larger-Kept w

-- `ngx_pfree(pool, NULL)` leaves the memory as it is.
clear_large-null :
    (ls : List Large)
    → (clear_large 0 ls ≡ none)
      ⊎ ((ls' : List Large) × (clear_large 0 ls ≡ some ls') × (live ls' ≡ live ls))
unfolding clear_large
clear_large-null [] = inl refl
clear_large-null (l ∷ ls) = elim (Bool-cases (0 == l.alloc)) [
  | inl hit ↦ inr (record l { alloc = 0 } ∷ ls, rw hit, ground arith)
  | inr miss ↦ elim (clear_large-null ls) [
    | inl out ↦ inl (rw (miss, out))
    | inr (ls', e, same) ↦ inr (l ∷ ls', rw (miss, e), rw same)
  ]
]

pfree-null :
    (size : ℕ) (s : State)
    → IsValid size s
    → (done : Bool) × (t : State) × (pfree s 0 ≡ some (done, t)) × Kept size s t
unfolding pfree free
pfree-null size s v = elim (clear_large-null s.pool.larges) [
  | inl out ↦
      rw (out, pfree) (false, s, refl, record { valid = v; foreign = λ a. refl; kept = λ a k u. u })
  | inr (ls, e, same) ↦
      rw (e, pfree)
        (
          true,
          record s { pool = record s.pool { larges = ls } },
          refl,
          record {
            valid = IsValid-larges size s s.heap ls v v.held (rw same v.owns);
            foreign = λ a. rw same;
            kept = λ a k u. u;
          },
        )
]

pub pfree-Kept :
    (size : ℕ) (s : State) (p : ℕ)
    → IsValid size s
    → (done : Bool) × (t : State) × (pfree s p ≡ some (done, t)) × Kept size s t
pfree-Kept size s zero v = pfree-null size s v
pfree-Kept size s (suc p) v =
    let (done, t, e, w) = pfree-Freed size (suc p) s v (omega arith) in
    (done, t, e, record { valid = w.valid; foreign = w.foreign; kept = λ a k u. rw w.blocks u })

-- Where a block's aligned last lies behind its end, which an end that is no multiple of 8 allows,
-- the loop of ngx_palloc_small grants any size up to 2 ^ 64 - 8 at an address behind the end of
-- the block.
pub carve-overrun :
    (n : ℕ) (b : Block) (bs : List Block)
    → b.last ≤ b.end
    → b.end + 8 < word
    → b.end < align_ptr b.last
    → n + 8 ≤ word
    → (m : ℕ) × (bs' : List Block) × (carve true n (b ∷ bs) ≡ some (m, bs')) × (b.end < m)
unfolding carve
carve-overrun n b bs within top past small =
    (align_ptr b.last, record b { last = (align_ptr b.last + n) % word } ∷ bs, ground arith, past)
