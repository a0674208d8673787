-- ===== src/MemPool/Pfree.antt =====
-- `ngx_pfree` on a valid pool.

use os_study_code.Base.{
  ℕ, ◌+◌, ◌≤◌, ◌≡◌, refl, ◌≢◌, inl, inr, ◌⊎◌, Bool, true, false, none, some, List, arith, ◌==◌,
  if◌then◌else◌,
}
use os_study_code.MemPool.{size_at, release, Large, State}
use os_study_code.MemPool.Layout.{addrs}
use os_study_code.MemPool.Ops.{pfree}
use os_study_code.MemPool.Owner.{
  count, count-append, cells, live, owned, residue, size_at-release, free_lem,
}
use os_study_code.MemPool.Valid.{IsValid}
use os_study_code.MemPool.LargeAlloc.{Gains, clear_large-Gains, IsValid-larges, Held-release}

-- What `ngx_pfree` does with an address that is not NULL: memory of the pool is freed and its
-- entry cleared, so that the pool has it no more; anything else is declined.
pub record Freed (size : ℕ) (s : State) (p : ℕ) (done : Bool) (t : State) : Type 0 where
  pub valid : IsValid size t
  pub blocks : t.pool.blocks ≡ s.pool.blocks
  pub foreign : (a : ℕ) → residue t a ≡ residue s a
  pub outcome :
      ((done ≡ true) × (count p (live s.pool.larges) ≡ 1) × (size_at t.heap p ≡ none))
      ⊎ ((done ≡ false) × (count p (live s.pool.larges) ≡ 0) × (t ≡ s))
  pub others : (a : ℕ) → a ≢ p → size_at t.heap a ≡ size_at s.heap a

module _ (size p : ℕ) (s : State) (v : IsValid size s) (ne : p ≢ 0) where
  cleared-Freed :
      (ls : List Large)
      → ((a : ℕ) → Gains p a ls s.pool.larges)
      → Freed size s p true
          (record { heap = release p s.heap; pool = record s.pool { larges = ls } })
  cleared-Freed ls g = record {
    valid =
        IsValid-larges size s (release p s.heap) ls v
          (Held-release size p s.heap (addrs s.pool.blocks) (ground (arith, counted p)) v.held)
          (λ a. ground (
            arith,
            counted a,
            size_at-release p s.heap a,
            count-append a (addrs s.pool.blocks) (live ls),
          ));
    blocks = refl;
    foreign = λ a. ground (
      arith,
      counted a,
      size_at-release p s.heap a,
      count-append a (addrs s.pool.blocks) (live ls),
    );
    outcome = inl (refl, ground (arith, counted p), ground (arith, size_at-release p s.heap p));
    others = λ a far. ground (arith, size_at-release p s.heap a);
  }
    where
      counted :
          (a : ℕ)
          → (count a (addrs s.pool.blocks) + count a (live s.pool.larges) ≤ cells s.heap a)
            × (count a (live s.pool.larges) ≡ count a (live ls) + (if p == a then 1 else 0))
            × (count a (owned s) ≡ count a (addrs s.pool.blocks) + count a (live s.pool.larges))
      counted a = (
        omega (arith, v.owns a, count-append a (addrs s.pool.blocks) (live s.pool.larges)),
        g a,
        count-append a (addrs s.pool.blocks) (live s.pool.larges),
      )

  -- On a valid pool ngx_pfree of an address that is not NULL runs without a fault: large memory
  -- of the pool is freed and its entry cleared, with OK, and for any other address the state
  -- stays as it is, with DECLINED.
  pub pfree-Freed :
      (done : Bool) × (t : State) × (pfree s p ≡ some (done, t)) × Freed size s p done t
  unfolding pfree
  pfree-Freed = elim (clear_large-Gains p s.pool.larges ne) [
    | inl (out, zero_of) ↦
        rw (out, pfree)
          (
            false,
            s,
            refl,
            record {
              valid = v;
              blocks = refl;
              foreign = λ a. refl;
              outcome = inr (refl, zero_of, refl);
              others = λ a far. refl;
            },
          )
    | inr (ls, e, g) ↦
        rw (e, pfree)
          (rw
            (free_lem p s.heap ne (
              ground
                (arith, g p, v.owns p, count-append p (addrs s.pool.blocks) (live s.pool.larges))))
            (
              true,
              record { heap = release p s.heap; pool = record s.pool { larges = ls } },
              refl,
              cleared-Freed ls g,
            ))
  ]
