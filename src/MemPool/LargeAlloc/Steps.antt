-- ===== src/MemPool/LargeAlloc/Steps.antt =====
-- The functions for large memory, branch by branch.

use os_study_code.Base.{
  ℕ, ◌≡◌, refl, ◌≢◌, inl, inr, ◌∙◌, Bool, true, false, none, some, List, ◌∷◌, arith, ◌==◌,
  Bool-cases, if◌then◌else◌,
}
use os_study_code.MemPool.{Heap, size_at, release, Large, State, sizeof_pool_large}
use os_study_code.MemPool.Layout.{Apart, Used}
use os_study_code.MemPool.Ops.{alloc, push_large, palloc_large, pmemalign}
use os_study_code.MemPool.Owner.{residue, free_lem}
use os_study_code.MemPool.Valid.{IsMalloc, IsValid}
use os_study_code.MemPool.Small.{Small}
use os_study_code.MemPool.Small.Steps.{palloc_small-Small}
use os_study_code.MemPool.LargeAlloc.{
  Gains, reuse-Gains, Larger, with_larges, spare_lem, adopt, give_back, got, got-IsValid,
  residue-got,
}

pub Small-kept :
    {size n : ℕ} {align : Bool} {s : State} {m : ℕ} {t : State}
    → Small size n align s m t
    → (a k : ℕ) → Used s.pool.blocks a k
    → Used t.pool.blocks a k
Small-kept {s} {t} w a k u = elim w.outcome [
  | inl (_, same) ↦ rw same u
  | inr (_, _, g) ↦ g.kept a k u
]

module _ {malloc : Heap → ℕ → ℕ} (ok : IsMalloc malloc) (size n : ℕ) (s : State)
    (v : IsValid size s) where
  abbrev p : ℕ
  p = malloc s.heap n

  null-Larger : Larger size n s 0 s
  null-Larger = record { valid = v; kept = λ a k u. u; foreign = λ a. refl; outcome = inl refl }

  module _ (ne : malloc s.heap n ≢ 0) where
    apart : (a k : ℕ) → size_at s.heap a ≡ some k → Apart a k p n
    apart a k e = ok.apart s.heap n a k ne e

    residue-p : residue s p ≡ none
    residue-p = ground (arith, v.owns p, ok.unused s.heap n ne)

    -- A state that has what `got` has, and then takes `p` or gives it back.
    foreign-got :
        (t u : State)
        → ((a : ℕ) → residue t a ≡ residue (got ok size n s v) a)
        → ((a : ℕ) → residue u a ≡ (if p == a then none else residue t a))
        → (a : ℕ) → residue u a ≡ residue s a
    foreign-got t u e f a = ground (arith, e a, f a, residue-got ok size n s v ne a, residue-p)

    spare-got : residue (got ok size n s v) p ≡ some n
    spare-got = ground (arith, residue-got ok size n s v ne p)

    adopted-Larger :
        (t : State) (ls : List Large)
        → ((a k : ℕ) → Used s.pool.blocks a k → Used t.pool.blocks a k)
        → (w : IsValid size t) → ((a : ℕ) → residue t a ≡ residue (got ok size n s v) a)
        → ((a : ℕ) → Gains p a t.pool.larges ls)
        → Larger size n s p (with_larges t ls)
    adopted-Larger t ls kept w same gains =
        let spare : residue t p ≡ some n = same p ∙ spare-got in
        let ad = adopt size n p t w spare ls gains in
        record {
          valid = ad.valid;
          kept = kept;
          foreign = foreign-got t (with_larges t ls) same ad.foreign;
          outcome = inr (omega arith, (spare_lem size n p t w spare).0, ad.mine, apart);
        }

    returned-Larger :
        (t : State)
        → ((a k : ℕ) → Used s.pool.blocks a k → Used t.pool.blocks a k)
        → (w : IsValid size t) → ((a : ℕ) → residue t a ≡ residue (got ok size n s v) a)
        → Larger size n s 0 (record t { heap = release p t.heap })
    returned-Larger t kept w same =
        let spare : residue t p ≡ some n = same p ∙ spare-got in
        let back = give_back size n p t w spare in
        record {
          valid = back.valid;
          kept = kept;
          foreign = foreign-got t (record t { heap = release p t.heap }) same back.foreign;
          outcome = inl refl;
        }

    push_large-Larger :
        (m : ℕ) × (t : State) × (push_large malloc (got ok size n s v) p ≡ some (m, t))
        × Larger size n s m t
    unfolding push_large
    push_large-Larger =
        let v' = got-IsValid ok size n s v ne in
        let (c, t, e, w) =
          palloc_small-Small ok size sizeof_pool_large true (got ok size n s v) v'
            (omega (arith, v.big)) in
        elim (Bool-cases (c == 0)) [
          | inl null ↦
              rw (e, push_large, null, push_large)
                (rw
                  (free_lem p t.heap ne
                    (ground (arith, spare_lem size n p t w.valid (w.foreign p ∙ spare-got))))
                  (
                    0,
                    record t { heap = release p t.heap },
                    refl,
                    returned-Larger t (Small-kept w) w.valid w.foreign,
                  ))
          | inr full ↦
              rw (e, push_large, full, push_large)
                (
                  p,
                  with_larges t (record { cell = c; alloc = p } ∷ t.pool.larges),
                  refl,
                  adopted-Larger t (record { cell = c; alloc = p } ∷ t.pool.larges) (Small-kept w)
                      w.valid w.foreign (λ a. ground arith),
                )
        ]

    palloc_large-got :
        (m : ℕ) × (t : State) × (palloc_large malloc s n ≡ some (m, t)) × Larger size n s m t
    unfolding palloc_large alloc
    palloc_large-got =
        let null : (malloc s.heap n == 0) ≡ false = ground arith in
        elim (reuse-Gains p 5 s.pool.larges ne) [
          | inl out ↦ rw (null, null, out, alloc, null) push_large-Larger
          | inr (ls, e, g) ↦
              rw (null, null, e, alloc, null)
                (
                  p,
                  with_larges (got ok size n s v) ls,
                  refl,
                  adopted-Larger (got ok size n s v) ls (λ a k u. u) (got-IsValid ok size n s v ne)
                      (λ a. refl) g,
                )
        ]

    pmemalign-got :
        (alignment : ℕ)
        → (m : ℕ) × (t : State) × (pmemalign malloc s n alignment ≡ some (m, t))
          × Larger size n s m t
    unfolding pmemalign alloc
    pmemalign-got alignment =
        let null : (malloc s.heap n == 0) ≡ false = ground arith in
        rw (null, null) push_large-Larger

  pub palloc_large-Larger :
      (m : ℕ) × (t : State) × (palloc_large malloc s n ≡ some (m, t)) × Larger size n s m t
  unfolding palloc_large alloc
  palloc_large-Larger = elim (Bool-cases (malloc s.heap n == 0)) [
    | inl null ↦ rw null (0, s, refl, null-Larger)
    | inr full ↦ palloc_large-got (ground arith)
  ]

  -- On a valid pool ngx_pmemalign runs without a fault and keeps the pool valid, whatever the
  -- alignment: it returns NULL, or a region of the size asked for that was not allocated, meets
  -- no other region and belongs to the pool from then on; nothing leaks.
  pub pmemalign-Larger :
      (alignment : ℕ)
      → (m : ℕ) × (t : State) × (pmemalign malloc s n alignment ≡ some (m, t)) × Larger size n s m t
  unfolding pmemalign alloc
  pmemalign-Larger alignment = elim (Bool-cases (malloc s.heap n == 0)) [
    | inl null ↦ rw null (0, s, refl, null-Larger)
    | inr full ↦ pmemalign-got (ground arith) alignment
  ]
