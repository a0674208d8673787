-- ===== src/MemPool/Ops.antt =====
-- The functions of mem_pool/mem_pool_palloc.c and `ngx_alloc` of mem_pool/mem_alloc.c, over the
-- loops of the parent module. `malloc` takes the heap and a size, and returns 0 where it fails.
-- `pagesize` is the global `ngx_pagesize`.
use mathlib.Core.Option
use os_study_code.Base.{
  ℕ, ◌+◌, ◌%◌, Bool, true, false, Option, none, some, List, [], ◌∷◌, ◌++◌, ltb, leb, ◌==◌,
  if◌then◌else◌,
}
use os_study_code.MemPool.{
  Heap, region, free, word, sizeof_pool, sizeof_pool_data, sizeof_pool_large, sub_word, align_ptr,
  Block, Large, Pool, State, split_at, pool_size, carve, count_failures, reuse,
}

-- The first loop of `ngx_reset_pool` and `ngx_destroy_pool`.
unfoldable pub free_larges : List Large → Heap → Option Heap
unfolding Option.bind
free_larges [] h = some h
free_larges (l ∷ ls) h =
    Option.bind (if l.alloc == 0 then some h else free l.alloc h) (free_larges ls)

-- The second loop of `ngx_destroy_pool`.
unfoldable pub free_blocks : List Block → Heap → Option Heap
unfolding Option.bind
free_blocks [] h = some h
free_blocks (b ∷ bs) h = Option.bind (free b.addr h) (free_blocks bs)

unfoldable pub reset_blocks : List Block → List Block
reset_blocks [] = []
reset_blocks (b ∷ bs) =
    record b { last = (b.addr + sizeof_pool) % word; failed = 0 } ∷ reset_blocks bs

unfoldable pub pool_addr : List Block → ℕ
pool_addr [] = 0
pool_addr (b ∷ bs) = b.addr

-- The loop of `ngx_pfree`: the entry that holds `p`, cleared.
unfoldable pub clear_large : ℕ → List Large → Option (List Large)
clear_large p [] = none
clear_large p (l ∷ ls) =
    if p == l.alloc
    then some (record l { alloc = 0 } ∷ ls)
    else Option.map (λ ls'. l ∷ ls') (clear_large p ls)

unfoldable pub destroy_pool : State → Option Heap
unfolding Option.bind
destroy_pool s = Option.bind (free_larges s.pool.larges s.heap) (free_blocks s.pool.blocks)

unfoldable pub reset_pool : State → Option State
reset_pool s =
    Option.map
      (λ h. record {
        heap = h;
        pool = record s.pool {
          blocks = reset_blocks s.pool.blocks;
          current = pool_addr s.pool.blocks;
          larges = [];
        };
      })
      (free_larges s.pool.larges s.heap)

-- The Boolean is `NGX_OK`; `false` is `NGX_DECLINED`.
unfoldable pub pfree : State → ℕ → Option (Bool × State)
pfree s p = elim (clear_large p s.pool.larges) [
  | none ↦ some (false, s)
  | some ls ↦
      Option.map (λ h. (true, record { heap = h; pool = record s.pool { larges = ls } }))
        (free p s.heap)
]

-- `max` of a new pool: what is left of it behind the header, or `NGX_MAX_ALLOC_FROM_POOL`.
abbrev pub new_max : (pagesize size : ℕ) → ℕ
new_max pagesize size =
    let room = sub_word size sizeof_pool in
    let limit = sub_word pagesize 1 in if ltb room limit then room else limit

-- The block that `ngx_palloc_block` lays out at `m`, and the address that it returns.
abbrev pub first_of : ℕ → ℕ
first_of m = align_ptr (m + sizeof_pool_data)

abbrev pub new_block : (m size n : ℕ) → Block
new_block m size n = record {
  addr = m;
  last = (first_of m + n) % word;
  end = (m + size) % word;
  failed = 0;
}

-- The pool with `d` behind its last block, after the failures from `current` on are counted.
unfoldable pub extend : Pool → Block → Option Pool
extend p d =
    Option.map
      (λ (before, chain). record p {
        blocks = before ++ ((count_failures p.current chain).1 ++ (d ∷ []));
        current = (count_failures p.current chain).0;
      })
      (split_at p.current p.blocks)

module _ (malloc : Heap → ℕ → ℕ) where
  unfoldable pub alloc : Heap → ℕ → ℕ × Heap
  alloc h n = let p = malloc h n in if p == 0 then (0, h) else (p, region p n ∷ h)

  unfoldable pub create_pool : (pagesize : ℕ) → Heap → ℕ → Option State × Heap
  unfolding alloc
  create_pool pagesize h size =
      let p = (alloc h size).0 in
      let h' = (alloc h size).1 in
      if p == 0 then (none, h') else (
        some (record {
          heap = h';
          pool = record {
            blocks =
                record {
                  addr = p;
                  last = (p + sizeof_pool) % word;
                  end = (p + size) % word;
                  failed = 0;
                }
                ∷ [];
            max = new_max pagesize size;
            current = p;
            larges = [];
          };
        }),
        h',
      )

  unfoldable pub palloc_block : State → ℕ → Option (ℕ × State)
  unfolding alloc
  palloc_block s n =
      let size = pool_size s.pool.blocks in
      let m = (alloc s.heap size).0 in
      let h = (alloc s.heap size).1 in
      if m == 0
      then some (0, record s { heap = h })
      else Option.map (λ p. (first_of m, record { heap = h; pool = p }))
          (extend s.pool (new_block m size n))

  unfoldable pub palloc_small : State → ℕ → Bool → Option (ℕ × State)
  palloc_small s n align = elim (split_at s.pool.current s.pool.blocks) [
    | none ↦ none
    | some (before, chain) ↦ elim (carve align n chain) [
      | none ↦ palloc_block s n
      | some (m, chain') ↦ some (m, record s { pool = record s.pool { blocks = before ++ chain' } })
    ]
  ]

  -- What `ngx_palloc_large` and `ngx_pmemalign` do with memory `p` that no free entry takes: the
  -- new entry is small memory of the pool, and `p` is given back if there is none.
  unfoldable pub push_large : State → ℕ → Option (ℕ × State)
  push_large s p = elim (palloc_small s sizeof_pool_large true) [
    | none ↦ none
    | some (cell, t) ↦
        if cell == 0
        then Option.map (λ h. (0, record t { heap = h })) (free p t.heap)
        else some (
          p,
          record t {
            pool = record t.pool { larges = record { cell = cell; alloc = p } ∷ t.pool.larges };
          },
        )
  ]

  unfoldable pub palloc_large : State → ℕ → Option (ℕ × State)
  unfolding alloc
  palloc_large s n =
      let p = (alloc s.heap n).0 in
      let t = record s { heap = (alloc s.heap n).1 } in
      if p == 0 then some (0, t) else elim (reuse p 5 s.pool.larges) [
        | some ls ↦ some (p, record t { pool = record s.pool { larges = ls } })
        | none ↦ push_large t p
      ]

  unfoldable pub palloc : State → ℕ → Option (ℕ × State)
  palloc s n = if leb n s.pool.max then palloc_small s n true else palloc_large s n

  unfoldable pub pnalloc : State → ℕ → Option (ℕ × State)
  pnalloc s n = if leb n s.pool.max then palloc_small s n false else palloc_large s n

  -- `ngx_memalign` is `ngx_alloc`, which drops the alignment.
  unfoldable pub pmemalign : State → ℕ → ℕ → Option (ℕ × State)
  unfolding alloc
  pmemalign s n alignment =
      let p = (alloc s.heap n).0 in
      let t = record s { heap = (alloc s.heap n).1 } in
      if p == 0 then some (0, t) else push_large t p
