-- ===== src/MemPool/Blocks.antt =====
-- The loops of `ngx_palloc_small` and `ngx_palloc_block` on a chain of blocks.

use os_study_code.Base.{
  ℕ, ◌+◌, ◌%◌, ◌^◌, ◌≤◌, ◌<◌, ◌≡◌, refl, ap, ◌⊎◌, inl, inr, Bool, true, false, none, some, List, [],
  ◌∷◌, ◌++◌, arith, leb, ◌==◌, Bool-cases,
}
use os_study_code.MemPool.{Block, split_at, carve, start_of, sub_word}
use os_study_code.MemPool.Layout.{
  addrs, has, Apart, Clear, Spread, IsAligned, IsBlock, AllBlocks, Used, Used-Apart, Grant,
  Grant-cons,
}

-- `split_at` cuts the chain, and the second part begins at the address.
pub record Cut (p : ℕ) (bs before chain : List Block) : Type 0 where
  pub joined : bs ≡ before ++ chain
  pub found : has p (addrs chain) ≡ true

pub split_at-Cut :
    (p : ℕ) (bs : List Block)
    → has p (addrs bs) ≡ true
    → (before : List Block) × (chain : List Block) × (split_at p bs ≡ some (before, chain))
      × Cut p bs before chain
unfolding split_at
split_at-Cut p [] h = cc
split_at-Cut p (b ∷ bs) h = elim (Bool-cases (b.addr == p)) [
  | inl e ↦ ([], b ∷ bs, rw e, record { joined = refl; found = h })
  | inr ne ↦
      let rest = split_at-Cut p bs (ground arith) in
      (
        b ∷ rest.0,
        rest.1,
        rw (ne, rest.2),
        record { joined = ap (λ (l : List Block). b ∷ l) rest.3.joined; found = rest.3.found },
      )
]

-- A block whose end is aligned has the room that the test of the loop asks for.
record Fits (b : Block) (size m n : ℕ) : Type 0 where
  above : b.last ≤ m
  below : m + n ≤ b.addr + size
  sum : (m + n) % 2 ^ 64 ≡ m + n

start_of-Fits :
    (size : ℕ) (align : Bool) (n : ℕ) (b : Block)
    → size % 8 ≡ 0
    → IsBlock size b
    → leb n (sub_word b.end (start_of align b.last)) ≡ true
    → Fits b size (start_of align b.last) n
start_of-Fits size true n b whole ok fits = ground arith
start_of-Fits size false n b whole ok fits = ground arith

carve_here :
    (size m n : ℕ) (b : Block) (bs : List Block)
    → IsBlock size b
    → AllBlocks size bs
    → Clear size b.addr (addrs bs)
    → Fits b size m n
    → Grant size (b ∷ bs) m n (record b { last = (m + n) % 2 ^ 64 } ∷ bs)
carve_here size m n b bs ok bl cl fits = record {
  blocks = (
    record {
      positive = ok.positive;
      aligned = ok.aligned;
      end_at = ok.end_at;
      below = ok.below;
      header = omega arith;
      within = omega arith;
    },
    bl,
  );
  used = inl (omega arith);
  kept = λ a k. kept_of a k;
  fresh = λ a k. fresh_of a k;
}
  where
    kept_of : (a k : ℕ) → Used (b ∷ bs) a k → Used (record b { last = (m + n) % 2 ^ 64 } ∷ bs) a k
    kept_of a k (inl u) = inl (omega arith)
    kept_of a k (inr u) = inr u

    fresh_of : (a k : ℕ) → Used (b ∷ bs) a k → Apart a k m n
    fresh_of a k (inl u) = omega arith
    fresh_of a k (inr u) = omega (arith, Used-Apart size b.addr bs a k bl cl u)

-- What the loop of `ngx_palloc_small` returns, where it finds room.
pub record Carved (align : Bool) (size n : ℕ) (bs : List Block) (m : ℕ) (bs' : List Block)
    : Type 0 where
  pub same : addrs bs' ≡ addrs bs
  pub grant : Grant size bs m n bs'
  pub positive : 0 < m
  pub aligned : IsAligned align m

carve_there :
    (size : ℕ) (align : Bool) (n m : ℕ) (b : Block) (bs bs' : List Block)
    → IsBlock size b
    → Clear size b.addr (addrs bs)
    → Carved align size n bs m bs'
    → Carved align size n (b ∷ bs) m (b ∷ bs')
carve_there size align n m b bs bs' ok cl c = record {
  same = rw c.same;
  grant = Grant-cons ok cl c.same c.grant;
  positive = c.positive;
  aligned = c.aligned;
}

IsAligned-start_of : (align : Bool) (m : ℕ) → IsAligned align (start_of align m)
IsAligned-start_of true m = omega arith
IsAligned-start_of false m = tt

pub carve-Carved :
    (size : ℕ) (align : Bool) (n : ℕ) (bs : List Block)
    → size % 8 ≡ 0
    → AllBlocks size bs
    → Spread size (addrs bs)
    → (carve align n bs ≡ none)
      ⊎ ((m : ℕ) × (bs' : List Block) × (carve align n bs ≡ some (m, bs'))
          × Carved align size n bs m bs')
unfolding carve
carve-Carved size align n [] whole bl sp = inl refl
carve-Carved size align n (b ∷ bs) whole bl sp =
    elim (Bool-cases (leb n (sub_word b.end (start_of align b.last)))) [
      | inl fits ↦
          let room = start_of-Fits size align n b whole bl.0 fits in
          inr (
            start_of align b.last,
            record b { last = (start_of align b.last + n) % 2 ^ 64 } ∷ bs,
            rw fits,
            record {
              same = refl;
              grant = carve_here size (start_of align b.last) n b bs bl.0 bl.1 sp.0 room;
              positive = omega arith;
              aligned = IsAligned-start_of align b.last;
            },
          )
      | inr full ↦ elim (carve-Carved size align n bs whole bl.1 sp.1) [
        | inl out ↦ inl (rw (full, out))
        | inr (m, bs', e, c) ↦
            inr (m, b ∷ bs', rw (full, e), carve_there size align n m b bs bs' bl.0 sp.0 c)
      ]
    ]
