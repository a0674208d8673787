-- ===== src/MemPool/Lifetime.antt =====
-- `ngx_create_pool`, `ngx_reset_pool` and `ngx_destroy_pool`.

use os_study_code.Base.{
  ℕ, ◌+◌, ◌%◌, ◌^◌, ◌≤◌, ◌<◌, ◌≡◌, refl, ◌≢◌, ◌⊎◌, inl, inr, true, none, some, List, [], ◌∷◌, arith,
  ◌==◌, Bool-cases,
}
use os_study_code.MemPool.{Heap, region, size_at, Block, Pool, State, sizeof_pool, word}
use os_study_code.MemPool.Layout.{addrs, has, AllBlocks}
use os_study_code.MemPool.Ops.{new_max, create_pool, reset_blocks, pool_addr}
use os_study_code.MemPool.Owner.{count, cells, live, residue, Without}
use os_study_code.MemPool.Valid.{IsMalloc, Held, IsValid, size_at-region}

-- What `ngx_create_pool` returns.
pub record Created (size : ℕ) (h : Heap) (t : State) : Type 0 where
  pub valid : IsValid size t
  pub foreign : (a : ℕ) → residue t a ≡ size_at h a
  pub no_larges : t.pool.larges ≡ []

abbrev fresh_block : (p size : ℕ) → Block
fresh_block p size = record {
  addr = p;
  last = (p + sizeof_pool) % word;
  end = (p + size) % word;
  failed = 0;
}

abbrev fresh_pool : (pagesize size p : ℕ) → Pool
fresh_pool pagesize size p = record {
  blocks = fresh_block p size ∷ [];
  max = new_max pagesize size;
  current = p;
  larges = [];
}

new_max-le :
    (pagesize size : ℕ)
    → sizeof_pool ≤ size
    → size < 2 ^ 64
    → new_max pagesize size + sizeof_pool ≤ size
new_max-le pagesize size big small = ground arith

module _ {malloc : Heap → ℕ → ℕ} (ok : IsMalloc malloc) (pagesize size : ℕ) (h : Heap)
    (big : sizeof_pool ≤ size) (whole : size % 8 ≡ 0) (small : size < 2 ^ 64) where
  abbrev p : ℕ
  p = malloc h size

  fresh-Created :
      p ≢ 0
      → Created size h (record { heap = region p size ∷ h; pool = fresh_pool pagesize size p })
  fresh-Created ne = record {
    valid = record {
      big = big;
      whole = whole;
      max_fits = new_max-le pagesize size big small;
      blocks = (
        record {
          positive = omega arith;
          aligned = ok.aligned h size;
          end_at = omega (arith, ok.below h size ne);
          below = ok.below h size ne;
          header = omega (arith, ok.below h size ne);
          within = omega (arith, ok.below h size ne);
        },
        tt,
      );
      spread = (tt, tt);
      held = (rw (size_at-region p size h p) (ground arith), tt);
      on_chain = ground arith;
      owns = λ a. ground (arith, size_at-region p size h a);
    };
    foreign = λ a. ground (arith, size_at-region p size h a, ok.unused h size ne);
    no_larges = refl;
  }

  -- For a size of at least a header, a multiple of 8 and below 2 ^ 64, ngx_create_pool returns
  -- NULL with the heap unchanged, exactly when malloc fails, or a valid pool without large
  -- memory, and nothing else of the heap changes.
  pub create_pool-Created :
      ((create_pool malloc pagesize h size ≡ (none, h)) × (malloc h size ≡ 0))
      ⊎ ((t : State) × (create_pool malloc pagesize h size ≡ (some t, t.heap)) × Created size h t)
  unfolding create_pool
  create_pool-Created = elim (Bool-cases (p == 0)) [
    | inl null ↦ inl (rw null, ground arith)
    | inr full ↦ inr (
      record { heap = region p size ∷ h; pool = fresh_pool pagesize size p },
      rw (full, full),
      fresh-Created (ground arith),
    )
  ]

-- Every block is empty up to a pool header, and has no failures.
abbrev pub AllEmpty : List Block → Type 0
AllEmpty [] = Unit
AllEmpty (b ∷ bs) = (b.last ≡ b.addr + sizeof_pool) × (b.failed ≡ 0) × AllEmpty bs

-- What `ngx_reset_pool` leaves: the same blocks, all empty, the first one current, and the large
-- memory given back.
pub record Reset (size : ℕ) (s t : State) : Type 0 where
  pub valid : IsValid size t
  pub foreign : (a : ℕ) → residue t a ≡ residue s a
  pub no_larges : t.pool.larges ≡ []
  pub places : addrs t.pool.blocks ≡ addrs s.pool.blocks
  pub empty : AllEmpty t.pool.blocks
  pub rewound : t.pool.current ≡ pool_addr t.pool.blocks
  pub gone : (a : ℕ) → 1 ≤ count a (live s.pool.larges) → size_at t.heap a ≡ none

pub addrs-reset_blocks : (bs : List Block) → addrs (reset_blocks bs) ≡ addrs bs
unfolding reset_blocks
addrs-reset_blocks [] = refl
addrs-reset_blocks (b ∷ bs) = rw (addrs-reset_blocks bs)

pub reset_blocks-AllBlocks :
    (size : ℕ) (bs : List Block)
    → sizeof_pool ≤ size
    → AllBlocks size bs
    → AllBlocks size (reset_blocks bs) × AllEmpty (reset_blocks bs)
unfolding reset_blocks
reset_blocks-AllBlocks size [] big bl = (tt, tt)
reset_blocks-AllBlocks size (b ∷ bs) big bl =
    let rest = reset_blocks-AllBlocks size bs big bl.1 in
    let ok = bl.0 in
    (
      (
        record {
          positive = ok.positive;
          aligned = ok.aligned;
          end_at = ok.end_at;
          below = ok.below;
          header = omega (arith, ok.below);
          within = omega (arith, ok.below);
        },
        rest.0,
      ),
      (omega (arith, ok.below), refl, rest.1),
    )

pub pool_addr-on_chain :
    (c : ℕ) (bs : List Block) → has c (addrs bs) ≡ true → has (pool_addr bs) (addrs bs) ≡ true
unfolding pool_addr
pool_addr-on_chain c [] h = cc
pool_addr-on_chain c (b ∷ bs) h = ground arith

pub pool_addr-reset_blocks : (bs : List Block) → pool_addr bs ≡ pool_addr (reset_blocks bs)
unfolding pool_addr reset_blocks
pool_addr-reset_blocks [] = refl
pool_addr-reset_blocks (b ∷ bs) = refl

pub Held-Without :
    (size : ℕ) (ys : List ℕ) (h g : Heap) (xs : List ℕ)
    → Without ys h g
    → ((a : ℕ) → count a xs + count a ys ≤ cells h a)
    → Held size h xs
    → Held size g xs
Held-Without size ys h g [] w o held = tt
Held-Without size ys h g (x ∷ xs) w o held =
    (ground (arith, w x, o x), Held-Without size ys h g xs w (λ a. ground (arith, o a)) held.1)
