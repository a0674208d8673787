-- ===== src/MemPool/Extend.antt =====
-- The loop of `ngx_palloc_block`, and the chain with one block more.
use os_study_code.Base.{
  ℕ, ◌+◌, ◌≤◌, ◌≡◌, refl, ◌⊎◌, inl, inr, true, ◌||◌, List, [], ◌∷◌, ◌++◌, arith, ltb, if◌then◌else◌,
}
use os_study_code.MemPool.{Block, count_failures}
use os_study_code.MemPool.Layout.{
  addrs, has, Clear, Spread, IsBlock, AllBlocks, Used, Used-Apart, Grant,
}

-- The two chains are alike but for the counts of failures.
pub record SameUse (bs bs' : List Block) : Type 0 where
  pub same : addrs bs' ≡ addrs bs
  pub blocks : (size : ℕ) → AllBlocks size bs → AllBlocks size bs'
  pub used : (a k : ℕ) → Used bs a k → Used bs' a k

SameUse-cons :
    (b b' : Block) (bs bs' : List Block)
    → b' ≡ record b { failed = b'.failed }
    → SameUse bs bs'
    → SameUse (b ∷ bs) (b' ∷ bs')
SameUse-cons b b' bs bs' e s = record {
  same = ground (arith, s.same);
  blocks = λ size h. (
    rw e (record {
      positive = h.0.positive;
      aligned = h.0.aligned;
      end_at = h.0.end_at;
      below = h.0.below;
      header = h.0.header;
      within = h.0.within;
    }),
    s.blocks size h.1,
  );
  used = λ a k. used_of a k;
}
  where
    used_of : (a k : ℕ) → Used (b ∷ bs) a k → Used (b' ∷ bs') a k
    used_of a k (inl u) = inl (ground arith)
    used_of a k (inr u) = inr (s.used a k u)

SameUse-refl : (bs : List Block) → SameUse bs bs
SameUse-refl bs = record { same = refl; blocks = λ size h. h; used = λ a k u. u }

pub SameUse-append :
    (front : List Block) {bs bs' : List Block}
    → SameUse bs bs'
    → SameUse (front ++ bs) (front ++ bs')
SameUse-append [] s = s
SameUse-append (b ∷ front) {bs} {bs'} s =
    SameUse-cons b b (front ++ bs) (front ++ bs') refl (SameUse-append front s)

pub count_failures-SameUse :
    (current : ℕ) (bs : List Block) → SameUse bs (count_failures current bs).1
unfolding count_failures
count_failures-SameUse current [] = SameUse-refl []
count_failures-SameUse current (b ∷ []) = SameUse-refl (b ∷ [])
count_failures-SameUse current (b ∷ c ∷ bs) =
    SameUse-cons b _ (c ∷ bs) _ refl
      (count_failures-SameUse (if ltb 4 b.failed then c.addr else current) (c ∷ bs))

-- The pointer that the loop moves stays on the chain.
pub has-count_failures :
    (current : ℕ) (bs : List Block)
    → ((count_failures current bs).0 ≡ current)
      ⊎ (has (count_failures current bs).0 (addrs bs) ≡ true)
unfolding count_failures
has-count_failures current [] = inl refl
has-count_failures current (b ∷ []) = inl refl
has-count_failures current (b ∷ c ∷ bs) =
    ground (arith, has-count_failures (if ltb 4 b.failed then c.addr else current) (c ∷ bs))

pub addrs-append : (bs cs : List Block) → addrs (bs ++ cs) ≡ addrs bs ++ addrs cs
addrs-append [] cs = refl
addrs-append (b ∷ bs) cs = rw (addrs-append bs cs)

pub has-append : (a : ℕ) (xs ys : List ℕ) → has a (xs ++ ys) ≡ (has a xs || has a ys)
has-append a [] ys = refl
has-append a (x ∷ xs) ys = ground (arith, has-append a xs ys)

pub Clear-append :
    (size a : ℕ) (xs ys : List ℕ) → Clear size a xs → Clear size a ys → Clear size a (xs ++ ys)
Clear-append size a [] ys h k = k
Clear-append size a (x ∷ xs) ys h k = (h.0, Clear-append size a xs ys h.1 k)

pub Spread-snoc :
    (size a : ℕ) (xs : List ℕ) → Spread size xs → Clear size a xs → Spread size (xs ++ (a ∷ []))
Spread-snoc size a [] sp cl = (tt, tt)
Spread-snoc size a (x ∷ xs) sp cl =
    (Clear-append size x xs (a ∷ []) sp.0 (omega arith, tt), Spread-snoc size a xs sp.1 cl.1)

AllBlocks-snoc :
    (size : ℕ) (bs : List Block) (d : Block)
    → AllBlocks size bs
    → IsBlock size d
    → AllBlocks size (bs ++ (d ∷ []))
AllBlocks-snoc size [] d h k = (k, tt)
AllBlocks-snoc size (b ∷ bs) d h k = (h.0, AllBlocks-snoc size bs d h.1 k)

Used-snoc : (bs : List Block) (d : Block) (a k : ℕ) → Used bs a k → Used (bs ++ (d ∷ [])) a k
Used-snoc [] d a k u = absurd u
Used-snoc (b ∷ bs) d a k (inl u) = inl u
Used-snoc (b ∷ bs) d a k (inr u) = inr (Used-snoc bs d a k u)

Used-last :
    (bs : List Block) (d : Block) (a k : ℕ)
    → d.addr ≤ a
    → a + k ≤ d.last
    → Used (bs ++ (d ∷ [])) a k
Used-last [] d a k lo hi = inl (lo, hi)
Used-last (b ∷ bs) d a k lo hi = inr (Used-last bs d a k lo hi)

-- A block behind the chain grants the memory that it is laid out with.
pub Grant-snoc :
    (size m n : ℕ) (bs bs' : List Block) (d : Block)
    → AllBlocks size bs
    → SameUse bs bs'
    → IsBlock size d
    → Clear size d.addr (addrs bs)
    → d.addr ≤ m
    → m + n ≤ d.last
    → Grant size bs m n (bs' ++ (d ∷ []))
Grant-snoc size m n bs bs' d bl s ok cl lo hi = record {
  blocks = AllBlocks-snoc size bs' d (s.blocks size bl) ok;
  used = Used-last bs' d m n lo hi;
  kept = λ a k u. Used-snoc bs' d a k (s.used a k u);
  fresh = λ a k u. omega (arith, Used-Apart size d.addr bs a k bl cl u, ok.within);
}
