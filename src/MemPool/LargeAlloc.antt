-- ===== src/MemPool/LargeAlloc.antt =====
-- `ngx_palloc_large`, `ngx_pmemalign` and `ngx_pfree` on a valid pool.

pub mod Steps
use os_study_code.Base.{
  ℕ, zero, suc, ◌+◌, ◌<◌, ◌≡◌, refl, ◌≢◌, ◌⊎◌, inl, inr, Option, none, some, List, [], ◌∷◌, ◌++◌,
  arith, ◌==◌, Bool-cases, if◌then◌else◌,
}
use os_study_code.MemPool.{Heap, region, size_at, release, Large, State, reuse}
use os_study_code.MemPool.Layout.{addrs, Apart, Used}
use os_study_code.MemPool.Ops.{clear_large}
use os_study_code.MemPool.Owner.{count, count-append, live, owned, Owns, residue, size_at-release}
use os_study_code.MemPool.Valid.{
  IsMalloc, Held, IsValid, IsValid-Grows, Grows-region, size_at-region,
}

-- The pool with other large memory.
pub IsValid-larges :
    (size : ℕ) (s : State) (h : Heap) (ls : List Large)
    → IsValid size s
    → Held size h (addrs s.pool.blocks)
    → Owns h (addrs s.pool.blocks ++ live ls)
    → IsValid size (record { heap = h; pool = record s.pool { larges = ls } })
IsValid-larges size s h ls v held owns = record {
  big = v.big;
  whole = v.whole;
  max_fits = v.max_fits;
  blocks = v.blocks;
  spread = v.spread;
  held = held;
  on_chain = v.on_chain;
  owns = owns;
}

pub Held-release :
    (size p : ℕ) (h : Heap) (xs : List ℕ)
    → count p xs ≡ 0
    → Held size h xs
    → Held size (release p h) xs
Held-release size p h [] out held = tt
Held-release size p h (x ∷ xs) out held =
    (ground (arith, size_at-release p h x), Held-release size p h xs (ground arith) held.1)

-- The second list has the memory `p` once more.
abbrev pub Gains : (p a : ℕ) → List Large → List Large → Type 0
Gains p a ls ls' = count a (live ls') ≡ count a (live ls) + (if p == a then 1 else 0)

pub Gains-cons :
    (p a : ℕ) (l : Large) (ls ls' : List Large) → Gains p a ls ls' → Gains p a (l ∷ ls) (l ∷ ls')
Gains-cons p a l ls ls' g = ground arith

Gains-here :
    (p a : ℕ) (l : Large) (ls : List Large)
    → p ≢ 0
    → l.alloc ≡ p
    → Gains p a (record l { alloc = 0 } ∷ ls) (l ∷ ls)
Gains-here p a l ls ne e = ground arith

Gains-reuse :
    (p a : ℕ) (l : Large) (ls : List Large)
    → p ≢ 0
    → l.alloc ≡ 0
    → Gains p a (l ∷ ls) (record l { alloc = p } ∷ ls)
Gains-reuse p a l ls ne e = ground arith

pub reuse-Gains :
    (p k : ℕ) (ls : List Large)
    → p ≢ 0
    → (reuse p k ls ≡ none)
      ⊎ ((ls' : List Large) × (reuse p k ls ≡ some ls') × ((a : ℕ) → Gains p a ls ls'))
unfolding reuse
reuse-Gains p k [] ne = inl refl
reuse-Gains p zero (l ∷ ls) ne = inl refl
reuse-Gains p (suc k) (l ∷ ls) ne = elim (Bool-cases (l.alloc == 0)) [
  | inl hit ↦ inr (record l { alloc = p } ∷ ls, rw hit, λ a. Gains-reuse p a l ls ne (ground arith))
  | inr miss ↦ elim (reuse-Gains p k ls ne) [
    | inl out ↦ inl (rw (miss, out))
    | inr (ls', e, g) ↦ inr (l ∷ ls', rw (miss, e), λ a. Gains-cons p a l ls ls' (g a))
  ]
]

-- `ngx_pfree` finds `p` exactly if the pool has it.
pub clear_large-Gains :
    (p : ℕ) (ls : List Large)
    → p ≢ 0
    → ((clear_large p ls ≡ none) × (count p (live ls) ≡ 0))
      ⊎ ((ls' : List Large) × (clear_large p ls ≡ some ls') × ((a : ℕ) → Gains p a ls' ls))
unfolding clear_large
clear_large-Gains p [] ne = inl (refl, refl)
clear_large-Gains p (l ∷ ls) ne = elim (Bool-cases (p == l.alloc)) [
  | inl hit ↦ inr (record l { alloc = 0 } ∷ ls, rw hit, λ a. Gains-here p a l ls ne (ground arith))
  | inr miss ↦ elim (clear_large-Gains p ls ne) [
    | inl (out, zero_of) ↦ inl (rw (miss, out), ground arith)
    | inr (ls', e, g) ↦ inr (l ∷ ls', rw (miss, e), λ a. Gains-cons p a l ls' ls (g a))
  ]
]

-- What an allocation of large memory does. It returns NULL, or a region of `n` bytes that was not
-- allocated before, meets no other region and belongs to the pool from then on. The pool stays
-- valid, what was in use in its blocks stays so, and nothing leaks.
pub record Larger (size n : ℕ) (s : State) (m : ℕ) (t : State) : Type 0 where
  pub valid : IsValid size t
  pub kept : (a k : ℕ) → Used s.pool.blocks a k → Used t.pool.blocks a k
  pub foreign : (a : ℕ) → residue t a ≡ residue s a
  pub outcome :
      (m ≡ 0)
      ⊎ ((0 < m)
          × (size_at t.heap m ≡ some n)
          × (count m (live t.pool.larges) ≡ 1)
          × ((a k : ℕ) → size_at s.heap a ≡ some k → Apart a k m n))

abbrev pub with_larges : State → List Large → State
with_larges s ls = record s { pool = record s.pool { larges = ls } }

-- Memory `p` that is allocated and that the pool does not have.
module _ (size n p : ℕ) (s : State) (v : IsValid size s) (spare : residue s p ≡ some n) where
  pub spare_lem : (size_at s.heap p ≡ some n) × (count p (owned s) ≡ 0)
  spare_lem = ground arith

  abbrev pub without_p : ℕ → Option ℕ
  without_p a = if p == a then none else residue s a

  -- The pool takes it.
  pub record Adopted (ls : List Large) : Type 0 where
    pub valid : IsValid size (with_larges s ls)
    pub foreign : (a : ℕ) → residue (with_larges s ls) a ≡ without_p a
    pub mine : count p (live ls) ≡ 1

  pub adopt : (ls : List Large) → ((a : ℕ) → Gains p a s.pool.larges ls) → Adopted ls
  adopt ls gains = record {
    valid = IsValid-larges size s s.heap ls v v.held (λ a. owns_of a);
    foreign = λ a. foreign_of a;
    mine =
        ground
          (arith, spare_lem, gains p, count-append p (addrs s.pool.blocks) (live s.pool.larges));
  }
    where
      owns_of : Owns s.heap (addrs s.pool.blocks ++ live ls)
      owns_of a = ground (
        arith,
        spare_lem,
        v.owns a,
        gains a,
        count-append a (addrs s.pool.blocks) (live ls),
        count-append a (addrs s.pool.blocks) (live s.pool.larges),
      )

      foreign_of : (a : ℕ) → residue (with_larges s ls) a ≡ without_p a
      foreign_of a = ground (
        arith,
        spare_lem,
        gains a,
        count-append a (addrs s.pool.blocks) (live ls),
        count-append a (addrs s.pool.blocks) (live s.pool.larges),
      )

  -- It is given back.
  pub record Returned (t : State) : Type 0 where
    pub valid : IsValid size t
    pub foreign : (a : ℕ) → residue t a ≡ without_p a

  pub give_back : Returned (record s { heap = release p s.heap })
  give_back = record {
    valid =
        IsValid-larges size s (release p s.heap) s.pool.larges v
          (Held-release size p s.heap (addrs s.pool.blocks)
            (omega (arith, spare_lem, count-append p (addrs s.pool.blocks) (live s.pool.larges)))
            v.held)
          (λ a. ground (arith, spare_lem, v.owns a, size_at-release p s.heap a));
    foreign = λ a. ground (arith, spare_lem, size_at-release p s.heap a);
  }

module _ {malloc : Heap → ℕ → ℕ} (ok : IsMalloc malloc) (size n : ℕ) (s : State)
    (v : IsValid size s) where
  -- The state after `ngx_alloc` has returned memory that is not NULL.
  abbrev pub got : State
  got = record s { heap = region (malloc s.heap n) n ∷ s.heap }

  module _ (ne : malloc s.heap n ≢ 0) where
    pub got-IsValid : IsValid size got
    got-IsValid =
        IsValid-Grows size s (region (malloc s.heap n) n ∷ s.heap)
          (Grows-region (malloc s.heap n) n s.heap (ok.unused s.heap n ne)) v

    pub residue-got :
        (a : ℕ) → residue got a ≡ (if malloc s.heap n == a then some n else residue s a)
    residue-got a =
        ground (arith, v.owns a, ok.unused s.heap n ne, size_at-region (malloc s.heap n) n s.heap a)
