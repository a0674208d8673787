-- ===== src/MemPool/Teardown.antt =====
-- `ngx_reset_pool` and `ngx_destroy_pool` give the memory back, and a client's run leaks nothing.
use os_study_code.Base.{ℕ, ◌+◌, ◌≤◌, ◌≡◌, refl, ◌∙◌, some, [], arith}
use os_study_code.MemPool.{Heap, size_at, State}
use os_study_code.MemPool.Layout.{addrs}
use os_study_code.MemPool.Ops.{reset_pool, reset_blocks, pool_addr, destroy_pool, free_larges}
use os_study_code.MemPool.Owner.{
  count, count-append, cells, live, owned, Owns, residue, Without, free_larges-Without,
  free_blocks-Without,
}
use os_study_code.MemPool.Valid.{IsValid}
use os_study_code.MemPool.Lifetime.{
  Reset, addrs-reset_blocks, reset_blocks-AllBlocks, pool_addr-on_chain, pool_addr-reset_blocks,
  Held-Without,
}

module _ (size : ℕ) (s : State) (v : IsValid size s) where
  counts : (a : ℕ) → count a (addrs s.pool.blocks) + count a (live s.pool.larges) ≤ cells s.heap a
  counts a = omega (arith, v.owns a, count-append a (addrs s.pool.blocks) (live s.pool.larges))

  larges_freed :
      (g : Heap) × (free_larges s.pool.larges s.heap ≡ some g)
      × Without (live s.pool.larges) s.heap g
  larges_freed = free_larges-Without s.pool.larges s.heap (λ a. omega (arith, counts a))

  abbrev after_reset : Heap → State
  after_reset g = record {
    heap = g;
    pool = record s.pool {
      blocks = reset_blocks s.pool.blocks;
      current = pool_addr s.pool.blocks;
      larges = [];
    };
  }

  after_reset-Reset :
      (g : Heap) → Without (live s.pool.larges) s.heap g → Reset size s (after_reset g)
  after_reset-Reset g w =
      let same = addrs-reset_blocks s.pool.blocks in
      record {
        valid = record {
          big = v.big;
          whole = v.whole;
          max_fits = v.max_fits;
          blocks = (reset_blocks-AllBlocks size s.pool.blocks v.big v.blocks).0;
          spread = rw same v.spread;
          held = rw same (
              Held-Without size (live s.pool.larges) s.heap g (addrs s.pool.blocks) w counts
                v.held);
          on_chain = rw same (pool_addr-on_chain s.pool.current s.pool.blocks v.on_chain);
          owns = λ a. owns_of a;
        };
        foreign = λ a. foreign_of a;
        no_larges = refl;
        places = same;
        empty = (reset_blocks-AllBlocks size s.pool.blocks v.big v.blocks).1;
        rewound = pool_addr-reset_blocks s.pool.blocks;
        gone = λ a one. ground (arith, w a);
      }
    where
      owned_of : (a : ℕ) → count a (owned (after_reset g)) ≡ count a (addrs s.pool.blocks)
      owned_of a =
          count-append a (addrs (reset_blocks s.pool.blocks)) []
          ∙ rw (addrs-reset_blocks s.pool.blocks) (omega arith)

      owns_of : Owns g (owned (after_reset g))
      owns_of a = ground (arith, w a, counts a, owned_of a)

      foreign_of : (a : ℕ) → residue (after_reset g) a ≡ residue s a
      foreign_of a = ground (
        arith,
        w a,
        counts a,
        owned_of a,
        count-append a (addrs s.pool.blocks) (live s.pool.larges),
      )

  -- On a valid pool ngx_reset_pool runs without a fault: the blocks stay where they are, each is
  -- empty up to a pool header with no failures, the first one is current, the large memory is
  -- freed, and the pool is valid.
  pub reset_pool-Reset : (t : State) × (reset_pool s ≡ some t) × Reset size s t
  unfolding reset_pool
  reset_pool-Reset =
      let (g, e, w) = larges_freed in rw e (after_reset g, refl, after_reset-Reset g w)

  -- On a valid pool ngx_destroy_pool runs without a fault, frees all that the pool owns, each
  -- region once, and nothing else.
  pub destroy_pool_lem :
      (g : Heap) × (destroy_pool s ≡ some g) × ((a : ℕ) → size_at g a ≡ residue s a)
  unfolding destroy_pool
  destroy_pool_lem =
      let (g, e, w) = larges_freed in
      let (k, e', w') =
        free_blocks-Without size s.pool.blocks g v.blocks (λ a. ground (arith, w a, counts a)) in
      rw e (
        k,
        e',
        λ a.
            ground (
              arith,
              w a,
              w' a,
              counts a,
              count-append a (addrs s.pool.blocks) (live s.pool.larges),
            ),
      )
