-- ===== src/MemPool/Layout.antt =====
-- Where the blocks of a chain lie, and which memory of theirs is in use.
use os_study_code.Base.{
  ℕ, ◌+◌, ◌%◌, ◌^◌, ◌≤◌, ◌<◌, ◌≡◌, ◌⊎◌, inl, inr, Bool, true, false, ◌||◌, List, [], ◌∷◌, ◌++◌,
  arith, ◌==◌,
}
use os_study_code.MemPool.{Block, sizeof_pool_data}

abbrev pub addrs : List Block → List ℕ
addrs [] = []
addrs (b ∷ bs) = b.addr ∷ addrs bs

abbrev pub has : ℕ → List ℕ → Bool
has a [] = false
has a (x ∷ xs) = (a == x) || has a xs

-- Two ranges share no byte.
abbrev pub Apart : (a k b n : ℕ) → Type 0
Apart a k b n = (a + k ≤ b) ⊎ (b + n ≤ a)

-- What is asked of the address of an allocation.
abbrev pub IsAligned : Bool → ℕ → Type 0
IsAligned true m = m % 8 ≡ 0
IsAligned false m = Unit

pub IsAligned-of : (align : Bool) (m : ℕ) → m % 8 ≡ 0 → IsAligned align m
IsAligned-of true m e = e
IsAligned-of false m e = tt

-- Ranges of one size, none of which meets another.
abbrev pub Clear : (size a : ℕ) → List ℕ → Type 0
Clear size a [] = Unit
Clear size a (c ∷ cs) = Apart a size c size × Clear size a cs

abbrev pub Spread : ℕ → List ℕ → Type 0
Spread size [] = Unit
Spread size (c ∷ cs) = Clear size c cs × Spread size cs

pub record IsBlock (size : ℕ) (b : Block) : Type 0 where
  pub positive : 0 < b.addr
  pub aligned : b.addr % 16 ≡ 0
  pub end_at : b.end ≡ b.addr + size
  pub below : b.addr + size < 2 ^ 64
  pub header : b.addr + sizeof_pool_data ≤ b.last
  pub within : b.last ≤ b.addr + size

abbrev pub AllBlocks : ℕ → List Block → Type 0
AllBlocks size [] = Unit
AllBlocks size (b ∷ bs) = IsBlock size b × AllBlocks size bs

-- The range lies in the header or in the memory that some block has handed out.
abbrev pub Used : List Block → (a k : ℕ) → Type 0
Used [] a k = ⊥
Used (b ∷ bs) a k = ((b.addr ≤ a) × (a + k ≤ b.last)) ⊎ Used bs a k

pub Used-Apart :
    (size x : ℕ) (bs : List Block) (a k : ℕ)
    → AllBlocks size bs
    → Clear size x (addrs bs)
    → Used bs a k
    → Apart a k x size
Used-Apart size x [] a k bl cl u = absurd u
Used-Apart size x (b ∷ bs) a k bl cl (inl u) = omega arith
Used-Apart size x (b ∷ bs) a k bl cl (inr u) = Used-Apart size x bs a k bl.1 cl.1 u

-- `m` is `n` bytes of the chain `bs` that were free, and `bs'` is the chain with them handed out:
-- the blocks stay where they are, what was in use stays in use, and none of it meets the new range.
pub record Grant (size : ℕ) (bs : List Block) (m n : ℕ) (bs' : List Block) : Type 0 where
  pub blocks : AllBlocks size bs'
  pub used : Used bs' m n
  pub kept : (a k : ℕ) → Used bs a k → Used bs' a k
  pub fresh : (a k : ℕ) → Used bs a k → Apart a k m n

pub Grant-cons :
    {size m n : ℕ} {b : Block} {bs bs' : List Block}
    → IsBlock size b
    → Clear size b.addr (addrs bs)
    → addrs bs' ≡ addrs bs
    → Grant size bs m n bs'
    → Grant size (b ∷ bs) m n (b ∷ bs')
Grant-cons {size} {m} {n} {b} {bs} {bs'} ok cl same g = record {
  blocks = (ok, g.blocks);
  used = inr g.used;
  kept = λ a k. kept_of a k;
  fresh = λ a k. fresh_of a k;
}
  where
    far : Apart m n b.addr size
    far = Used-Apart size b.addr bs' m n g.blocks (rw same cl) g.used

    kept_of : (a k : ℕ) → Used (b ∷ bs) a k → Used (b ∷ bs') a k
    kept_of a k (inl u) = inl u
    kept_of a k (inr u) = inr (g.kept a k u)

    fresh_of : (a k : ℕ) → Used (b ∷ bs) a k → Apart a k m n
    fresh_of a k (inl u) = omega (arith, far)
    fresh_of a k (inr u) = g.fresh a k u

-- The same below a longer front of the chain.
pub Grant-append :
    {size m n : ℕ} (front : List Block) {bs bs' : List Block}
    → AllBlocks size (front ++ bs)
    → Spread size (addrs (front ++ bs))
    → addrs bs' ≡ addrs bs
    → Grant size bs m n bs'
    → Grant size (front ++ bs) m n (front ++ bs')
Grant-append [] bl sp same g = g
Grant-append (b ∷ front) {bs} {bs'} bl sp same g =
    Grant-cons bl.0 sp.0 (addrs-append front same) (Grant-append front bl.1 sp.1 same g)
  where
    addrs-append :
        (front : List Block) → addrs bs' ≡ addrs bs → addrs (front ++ bs') ≡ addrs (front ++ bs)
    addrs-append [] e = e
    addrs-append (c ∷ cs) e = rw (addrs-append cs e)
