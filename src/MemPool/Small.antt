-- ===== src/MemPool/Small.antt =====
-- `ngx_palloc_small` and `ngx_palloc_block` on a valid pool.
pub mod Steps
use mathlib.Core.List.{append_assoc}
use os_study_code.Base.{
  ℕ, ◌%◌, ◌<◌, ◌≡◌, refl, ◌⊎◌, sym, ap, ◌∙◌, Bool, true, some, List, [], ◌∷◌, ◌++◌, arith,
}
use os_study_code.MemPool.{Block, Pool, State, count_failures}
use os_study_code.MemPool.Layout.{IsAligned, addrs, has, Grant}
use os_study_code.MemPool.Blocks.{split_at-Cut}
use os_study_code.MemPool.Extend.{
  SameUse, SameUse-append, count_failures-SameUse, has-count_failures, addrs-append, has-append,
}
use os_study_code.MemPool.Ops.{extend}
use os_study_code.MemPool.Owner.{residue}
use os_study_code.MemPool.Valid.{Grows, IsValid}

-- The pool after `extend`.
pub record Extended (p : Pool) (d : Block) (q : Pool) : Type 0 where
  pub same_max : q.max ≡ p.max
  pub same_larges : q.larges ≡ p.larges
  pub front : List Block
  pub alike : SameUse p.blocks front
  pub shape : q.blocks ≡ front ++ (d ∷ [])
  pub places : addrs q.blocks ≡ addrs p.blocks ++ (d.addr ∷ [])
  pub on_chain : has q.current (addrs q.blocks) ≡ true

extend_places :
    (front bs : List Block) (d : Block)
    → addrs front ≡ addrs bs
    → addrs (front ++ (d ∷ [])) ≡ addrs bs ++ (d.addr ∷ [])
extend_places front bs d e = addrs-append front (d ∷ []) ∙ ap (λ l. l ++ (d.addr ∷ [])) e

has-places :
    (c c' a : ℕ) (before chain : List Block)
    → has c (addrs (before ++ chain)) ≡ true
    → (c' ≡ c) ⊎ (has c' (addrs chain) ≡ true)
    → has c' (addrs (before ++ chain) ++ (a ∷ [])) ≡ true
has-places c c' a before chain old moved = ground (
  arith,
  has-append c' (addrs (before ++ chain)) (a ∷ []),
  has-append c' (addrs before) (addrs chain),
  addrs-append before chain,
  old,
  moved,
)

pub extend-Extended :
    (p : Pool) (d : Block)
    → has p.current (addrs p.blocks) ≡ true
    → (q : Pool) × (extend p d ≡ some q) × Extended p d q
unfolding extend
extend-Extended p d h =
    let (before, chain, e, cut) = split_at-Cut p.current p.blocks h in
    let counted = (count_failures p.current chain).1 in
    let alike : SameUse p.blocks (before ++ counted) =
      rw cut.joined (SameUse-append before (count_failures-SameUse p.current chain)) in
    let shape : before ++ (counted ++ (d ∷ [])) ≡ (before ++ counted) ++ (d ∷ []) =
      sym (append_assoc before counted (d ∷ [])) in
    let places : addrs (before ++ (counted ++ (d ∷ []))) ≡ addrs p.blocks ++ (d.addr ∷ []) =
      rw shape (extend_places (before ++ counted) p.blocks d alike.same) in
    (
      record p {
        blocks = before ++ (counted ++ (d ∷ []));
        current = (count_failures p.current chain).0;
      },
      rw e,
      record {
        same_max = refl;
        same_larges = refl;
        front = before ++ counted;
        alike = alike;
        shape = shape;
        places = places;
        on_chain =
            rw (places, cut.joined)
              (has-places p.current _ d.addr before chain (rw cut.joined at h)
                (has-count_failures p.current chain));
      },
    )

-- What `ngx_palloc_small` does: it returns NULL and leaves the chain, or it grants `n` bytes. In
-- both cases the pool is valid, its large memory is untouched, and what it allocates is its own.
pub record Small (size n : ℕ) (align : Bool) (s : State) (m : ℕ) (t : State) : Type 0 where
  pub valid : IsValid size t
  pub larges : t.pool.larges ≡ s.pool.larges
  pub grows : Grows s.heap t.heap
  pub foreign : (a : ℕ) → residue t a ≡ residue s a
  pub outcome :
      ((m ≡ 0) × (t.pool.blocks ≡ s.pool.blocks))
      ⊎ ((0 < m) × IsAligned align m × Grant size s.pool.blocks m n t.pool.blocks)
