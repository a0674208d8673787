-- ===== src/MemPool/Owner.antt =====
-- Heap regions, who owns them, and the loops that free them.

pub use os_study_code.Base.{count, count-append}
use os_study_code.Base.{
  ℕ, ◌≤◌, ◌≡◌, refl, ◌≢◌, inl, inr, Option, none, some, List, [], ◌∷◌, ◌++◌, arith, ◌==◌,
  Bool-cases, if◌then◌else◌,
}
use os_study_code.MemPool.{Heap, size_at, release, free, Block, Large, State}
use os_study_code.MemPool.Layout.{addrs, AllBlocks}
use os_study_code.MemPool.Ops.{free_larges, free_blocks}

-- 1 at the base of an allocated region, 0 elsewhere.
abbrev pub cells : Heap → ℕ → ℕ
cells h a = elim (size_at h a) [ none ↦ 0 | some k ↦ 1 ]

-- The memory that the entries of `pool->large` hold.
abbrev pub live : List Large → List ℕ
live [] = []
live (l ∷ ls) = if l.alloc == 0 then live ls else l.alloc ∷ live ls

abbrev pub owned : State → List ℕ
owned s = addrs s.pool.blocks ++ live s.pool.larges

-- Every address of the list is the base of a region, and stands in the list once.
abbrev pub Owns : Heap → List ℕ → Type 0
Owns h xs = (a : ℕ) → count a xs ≤ cells h a

-- What is allocated but not by the pool.
abbrev pub residue : State → ℕ → Option ℕ
residue s a = if count a (owned s) == 0 then size_at s.heap a else none

pub size_at-release :
    (p : ℕ) (h : Heap) (a : ℕ) → size_at (release p h) a ≡ (if p == a then none else size_at h a)
unfolding size_at release
size_at-release p [] a = ground arith
size_at-release p (r ∷ h) a = ground (arith, size_at-release p h a)

pub free_lem : (p : ℕ) (h : Heap) → p ≢ 0 → 1 ≤ cells h p → free p h ≡ some (release p h)
unfolding free
free_lem p h ne one = ground arith

-- `g` is `h` less the regions of the list.
abbrev pub Without : List ℕ → Heap → Heap → Type 0
Without xs h g = (a : ℕ) → size_at g a ≡ (if count a xs == 0 then size_at h a else none)

Owns-release : (x : ℕ) (xs : List ℕ) (h : Heap) → Owns h (x ∷ xs) → Owns (release x h) xs
Owns-release x xs h o a = ground (arith, size_at-release x h a, o a)

Without-cons :
    (x : ℕ) (xs : List ℕ) (h g : Heap) → Without xs (release x h) g → Without (x ∷ xs) h g
Without-cons x xs h g w a = ground (arith, w a, size_at-release x h a)

Owns-head : (x : ℕ) (xs : List ℕ) (h : Heap) → Owns h (x ∷ xs) → 1 ≤ cells h x
Owns-head x xs h o = ground (arith, o x)

pub free_larges-Without :
    (ls : List Large) (h : Heap)
    → Owns h (live ls)
    → (g : Heap) × (free_larges ls h ≡ some g) × Without (live ls) h g
unfolding free_larges
free_larges-Without [] h o = (h, refl, λ a. refl)
free_larges-Without (l ∷ ls) h o = elim (Bool-cases (l.alloc == 0)) [
  | inl null ↦ rw null (free_larges-Without ls h (rw null at o))
  | inr full ↦
      let o' : Owns h (l.alloc ∷ live ls) = rw full at o in
      let rest = free_larges-Without ls (release l.alloc h) (Owns-release l.alloc (live ls) h o') in
      rw full (
        rest.0,
        rw (free_lem l.alloc h (ground arith) (Owns-head l.alloc (live ls) h o')) rest.1,
        Without-cons l.alloc (live ls) h rest.0 rest.2,
      )
]

pub free_blocks-Without :
    (size : ℕ) (bs : List Block) (h : Heap)
    → AllBlocks size bs
    → Owns h (addrs bs)
    → (g : Heap) × (free_blocks bs h ≡ some g) × Without (addrs bs) h g
unfolding free_blocks
free_blocks-Without size [] h bl o = (h, refl, λ a. refl)
free_blocks-Without size (b ∷ bs) h bl o =
    let rest =
      free_blocks-Without size bs (release b.addr h) bl.1 (Owns-release b.addr (addrs bs) h o) in
    (
      rest.0,
      rw (free_lem b.addr h (omega (arith, bl.0.positive)) (Owns-head b.addr (addrs bs) h o))
          rest.1,
      Without-cons b.addr (addrs bs) h rest.0 rest.2,
    )
