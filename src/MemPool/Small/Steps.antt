-- ===== src/MemPool/Small/Steps.antt =====
-- The branches of `ngx_palloc_small` keep the invariant.
use os_study_code.Base.{
  ℕ, ◌+◌, ◌%◌, ◌^◌, ◌≤◌, ◌<◌, ◌≡◌, refl, ◌≢◌, inl, inr, ap, Bool, none, some, List, [], ◌∷◌, ◌++◌,
  arith, ◌==◌, Bool-cases, if◌then◌else◌,
}
use os_study_code.MemPool.{Heap, region, size_at, Block, Pool, State}
use os_study_code.MemPool.Layout.{
  IsAligned, IsAligned-of, addrs, Clear, Spread, IsBlock, AllBlocks, Grant, Grant-append,
}
use os_study_code.MemPool.Blocks.{split_at-Cut, carve-Carved}
use os_study_code.MemPool.Extend.{addrs-append, Spread-snoc, Grant-snoc}
use os_study_code.MemPool.Ops.{new_block, first_of, palloc_block, palloc_small}
use os_study_code.MemPool.Owner.{count, count-append, live, owned, Owns, residue}
use os_study_code.MemPool.Valid.{
  IsMalloc, Held, Held-Grows, IsValid, Clear-Held, pool_size_lem, Grows-region, size_at-region,
}
use os_study_code.MemPool.Small.{Extended, extend-Extended, Small}

AllBlocks-back :
    (size : ℕ) (before chain : List Block) → AllBlocks size (before ++ chain) → AllBlocks size chain
AllBlocks-back size [] chain bl = bl
AllBlocks-back size (b ∷ before) chain bl = AllBlocks-back size before chain bl.1

Spread-back : (size : ℕ) (xs ys : List ℕ) → Spread size (xs ++ ys) → Spread size ys
Spread-back size [] ys sp = sp
Spread-back size (x ∷ xs) ys sp = Spread-back size xs ys sp.1

addrs-front :
    (before bs cs : List Block) → addrs bs ≡ addrs cs → addrs (before ++ bs) ≡ addrs (before ++ cs)
addrs-front [] bs cs e = e
addrs-front (b ∷ before) bs cs e = ap (λ (l : List ℕ). b.addr ∷ l) (addrs-front before bs cs e)

-- Only what is handed out changes: the addresses are as before.
carved-Small :
    (size n : ℕ) (align : Bool) (s : State) (m : ℕ) (bs : List Block)
    → IsValid size s
    → addrs bs ≡ addrs s.pool.blocks
    → 0 < m
    → IsAligned align m
    → Grant size s.pool.blocks m n bs
    → Small size n align s m (record s { pool = record s.pool { blocks = bs } })
carved-Small size n align s m bs v same pos al g = record {
  valid = record {
    big = v.big;
    whole = v.whole;
    max_fits = v.max_fits;
    blocks = g.blocks;
    spread = rw same v.spread;
    held = rw same v.held;
    on_chain = rw same v.on_chain;
    owns = rw same v.owns;
  };
  larges = refl;
  grows = λ a k e. e;
  foreign = λ a. rw same;
  outcome = inr (pos, al, g);
}

null-Small : (size n : ℕ) (align : Bool) (s : State) → IsValid size s → Small size n align s 0 s
null-Small size n align s v = record {
  valid = v;
  larges = refl;
  grows = λ a k e. e;
  foreign = λ a. refl;
  outcome = inl (refl, refl);
}

-- The block that `malloc` has room for.
new_block-IsBlock :
    (m size n : ℕ)
    → m ≢ 0
    → m % 16 ≡ 0
    → m + size < 2 ^ 64
    → n + 32 ≤ size
    → IsBlock size (new_block m size n)
new_block-IsBlock m size n ne al below fits = record {
  positive = omega arith;
  aligned = al;
  end_at = omega arith;
  below = below;
  header = omega arith;
  within = omega arith;
}

Held-append :
    (size : ℕ) (h : Heap) (xs : List ℕ) (a : ℕ)
    → Held size h xs
    → size_at h a ≡ some size
    → Held size h (xs ++ (a ∷ []))
Held-append size h [] a held e = (e, tt)
Held-append size h (x ∷ xs) a held e = (held.0, Held-append size h xs a held.1 e)

module _ (size : ℕ) (s : State) (m : ℕ) (v : IsValid size s)
    (unused : size_at s.heap m ≡ none) where
  -- The heap with the new block, and the pool that has it.
  abbrev grown : Heap
  grown = region m size ∷ s.heap

  count-owned :
      (q : Pool) (a : ℕ)
      → addrs q.blocks ≡ addrs s.pool.blocks ++ (m ∷ [])
      → q.larges ≡ s.pool.larges
      → count a (addrs q.blocks ++ live q.larges) ≡ count a (owned s) + (if m == a then 1 else 0)
  count-owned q a places same =
      rw (places, same)
        (ground (
          arith,
          count-append a (addrs s.pool.blocks ++ (m ∷ [])) (live s.pool.larges),
          count-append a (addrs s.pool.blocks) (m ∷ []),
          count-append a (addrs s.pool.blocks) (live s.pool.larges),
        ))

  Owns-grown :
      (q : Pool)
      → addrs q.blocks ≡ addrs s.pool.blocks ++ (m ∷ [])
      → q.larges ≡ s.pool.larges
      → Owns grown (addrs q.blocks ++ live q.larges)
  Owns-grown q places same a =
      ground (arith, count-owned q a places same, v.owns a, size_at-region m size s.heap a)

  residue-grown :
      (q : Pool) (a : ℕ)
      → addrs q.blocks ≡ addrs s.pool.blocks ++ (m ∷ [])
      → q.larges ≡ s.pool.larges
      → residue (record { heap = grown; pool = q }) a ≡ residue s a
  residue-grown q a places same =
      ground (arith, count-owned q a places same, v.owns a, size_at-region m size s.heap a)

  grown-Small :
      (n : ℕ) (align : Bool) (q : Pool)
      → m ≢ 0
      → m % 16 ≡ 0
      → m + size < 2 ^ 64
      → n + 32 ≤ size
      → Clear size m (addrs s.pool.blocks)
      → Extended s.pool (new_block m size n) q
      → Small size n align s (first_of m) (record { heap = grown; pool = q })
  grown-Small n align q ne al below fits clear ex =
      let ok = new_block-IsBlock m size n ne al below fits in
      let grant : Grant size s.pool.blocks (first_of m) n q.blocks = rw ex.shape (
        Grant-snoc size (first_of m) n s.pool.blocks ex.front (new_block m size n) v.blocks ex.alike
          ok clear (omega arith) (omega arith)) in
      record {
        valid = record {
          big = v.big;
          whole = v.whole;
          max_fits = omega (arith, v.max_fits, ex.same_max);
          blocks = grant.blocks;
          spread = rw ex.places (Spread-snoc size m (addrs s.pool.blocks) v.spread clear);
          held = rw ex.places (
              Held-append size grown (addrs s.pool.blocks) m
                (Held-Grows size s.heap grown (addrs s.pool.blocks)
                  (Grows-region m size s.heap unused) v.held)
                (rw (size_at-region m size s.heap m) (ground arith)));
          on_chain = ex.on_chain;
          owns = Owns-grown q ex.places ex.same_larges;
        };
        larges = ex.same_larges;
        grows = Grows-region m size s.heap unused;
        foreign = λ a. residue-grown q a ex.places ex.same_larges;
        outcome = inr (omega arith, IsAligned-of align (first_of m) (omega arith), grant);
      }

module _ {malloc : Heap → ℕ → ℕ} (ok : IsMalloc malloc) where
  -- What `ngx_palloc_block` does, whether or not `malloc` fails.
  pub palloc_block-Small :
      (size n : ℕ) (align : Bool) (s : State)
      → IsValid size s
      → n + 32 ≤ size
      → (m : ℕ) × (t : State) × (palloc_block malloc s n ≡ some (m, t)) × Small size n align s m t
  unfolding palloc_block
  palloc_block-Small size n align s v fits =
      rw (pool_size_lem size s.pool.current s.pool.blocks v.blocks v.on_chain)
        (elim (Bool-cases (malloc s.heap size == 0)) [
          | inl null ↦ rw null (0, s, refl, null-Small size n align s v)
          | inr full ↦
              let m = malloc s.heap size in
              let ne : m ≢ 0 = ground arith in
              let apart =
                λ (a k : ℕ) (e : size_at s.heap a ≡ some k). ok.apart s.heap size a k ne e in
              let (q, e, ex) = extend-Extended s.pool (new_block m size n) v.on_chain in
              rw (full, full)
                (
                  first_of m,
                  record { heap = region m size ∷ s.heap; pool = q },
                  rw e,
                  grown-Small size s m v (ok.unused s.heap size ne) n align q ne
                      (ok.aligned s.heap size) (ok.below s.heap size ne) fits
                      (Clear-Held size s.heap m (addrs s.pool.blocks) apart v.held) ex,
                )
        ])

  pub palloc_small-Small :
      (size n : ℕ) (align : Bool) (s : State)
      → IsValid size s
      → n + 32 ≤ size
      → (m : ℕ) × (t : State) × (palloc_small malloc s n align ≡ some (m, t))
        × Small size n align s m t
  unfolding palloc_small
  palloc_small-Small size n align s v fits =
      let (before, chain, e, cut) = split_at-Cut s.pool.current s.pool.blocks v.on_chain in
      let bl : AllBlocks size (before ++ chain) = rw cut.joined at v.blocks in
      let sp : Spread size (addrs (before ++ chain)) = rw cut.joined at v.spread in
      elim (carve-Carved size align n chain v.whole (AllBlocks-back size before chain bl)
        (Spread-back size (addrs before) (addrs chain) (rw (addrs-append before chain) at sp))) [
          | inl out ↦
              rw (e, palloc_small, out, palloc_small) (palloc_block-Small size n align s v fits)
          | inr (m, chain', e', c) ↦
              rw (e, palloc_small, e', palloc_small)
                (
                  m,
                  record s { pool = record s.pool { blocks = before ++ chain' } },
                  refl,
                  carved-Small size n align s m (before ++ chain') v
                      (rw cut.joined (addrs-front before chain' chain c.same)) c.positive c.aligned
                      (rw cut.joined (Grant-append before bl sp c.same c.grant)),
                )
        ]
