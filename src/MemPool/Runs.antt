-- ===== src/MemPool/Runs.antt =====
-- A client of the pool: any sequence of calls between `ngx_create_pool` and `ngx_destroy_pool`.
use mathlib.Core.Option
use os_study_code.Base.{eq_of_some}
use mathlib.Core.Path.{subst, sym}
use os_study_code.Base.{
  ℕ, ◌%◌, ◌^◌, ◌≤◌, ◌<◌, ◌≡◌, refl, ◌≢◌, inl, inr, ◌∙◌, true, false, Option, some, List, [], ◌∷◌,
  arith,
}
use os_study_code.MemPool.{Heap, size_at, State, sizeof_pool}
use os_study_code.MemPool.Layout.{Apart}
use os_study_code.MemPool.Ops.{
  reset_pool, destroy_pool, palloc, pnalloc, pmemalign, pfree, create_pool,
}
use os_study_code.MemPool.Owner.{residue}
use os_study_code.MemPool.Valid.{IsMalloc, IsValid}
use os_study_code.MemPool.Lifetime.{create_pool-Created}
use os_study_code.MemPool.LargeAlloc.Steps.{pmemalign-Larger}
use os_study_code.MemPool.Small.{Small}
use os_study_code.MemPool.Teardown.{reset_pool-Reset, destroy_pool_lem}
use os_study_code.MemPool.Client.{
  Allocated, palloc-Allocated, pnalloc-Allocated, Kept, Allocated-Kept, Larger-Kept, pfree-Kept,
}

-- The calls other than `ngx_reset_pool`.
pub data Request : Type 0 where
  take : ℕ → Request
  take_unaligned : ℕ → Request
  take_at : (n alignment : ℕ) → Request
  give : ℕ → Request

pub data Call : Type 0 where
  request : Request → Call
  rewind : Call

module _ (malloc : Heap → ℕ → ℕ) where
  unfoldable pub perform : State → Request → Option State
  perform s (take n) = Option.map (λ (m, t). t) (palloc malloc s n)
  perform s (take_unaligned n) = Option.map (λ (m, t). t) (pnalloc malloc s n)
  perform s (take_at n alignment) = Option.map (λ (m, t). t) (pmemalign malloc s n alignment)
  perform s (give p) = Option.map (λ (done, t). t) (pfree s p)

  unfoldable pub requests : State → List Request → Option State
  unfolding Option.bind
  requests s [] = some s
  requests s (r ∷ rs) = Option.bind (perform s r) (λ t. requests t rs)

  unfoldable pub call : State → Call → Option State
  call s (request r) = perform s r
  call s rewind = reset_pool s

  unfoldable pub calls : State → List Call → Option State
  unfolding Option.bind
  calls s [] = some s
  calls s (c ∷ cs) = Option.bind (call s c) (λ t. calls t cs)

module _ {malloc : Heap → ℕ → ℕ} (ok : IsMalloc malloc) (size : ℕ) where
  perform-Kept :
      (s : State) (r : Request)
      → IsValid size s
      → (t : State) × (perform malloc s r ≡ some t) × Kept size s t
  unfolding perform
  perform-Kept s (take n) v =
      let (m, t, e, w) = palloc-Allocated ok size n s v in
      (t, rw e, Allocated-Kept size n m true s t w)
  perform-Kept s (take_unaligned n) v =
      let (m, t, e, w) = pnalloc-Allocated ok size n s v in
      (t, rw e, Allocated-Kept size n m false s t w)
  perform-Kept s (take_at n alignment) v =
      let (m, t, e, w) = pmemalign-Larger ok size n s v alignment in (t, rw e, Larger-Kept w)
  perform-Kept s (give p) v = let (done, t, e, w) = pfree-Kept size s p v in (t, rw e, w)

  Kept-trans : {s t u : State} → Kept size s t → Kept size t u → Kept size s u
  Kept-trans a b = record {
    valid = b.valid;
    foreign = λ x. b.foreign x ∙ a.foreign x;
    kept = λ x k used. b.kept x k (a.kept x k used);
  }

  -- Any sequence of requests runs without a fault, keeps the pool valid and all memory that is in
  -- use in its blocks in use, and changes nothing that the pool does not own.
  pub requests-Kept :
      (s : State) (rs : List Request)
      → IsValid size s
      → (t : State) × (requests malloc s rs ≡ some t) × Kept size s t
  unfolding requests
  requests-Kept s [] v = (s, refl, record { valid = v; foreign = λ a. refl; kept = λ a k u. u })
  requests-Kept s (r ∷ rs) v =
      let (t, e, w) = perform-Kept s r v in
      let (u, e', w') = requests-Kept t rs w.valid in rw e (u, e', Kept-trans w w')

  palloc_of :
      (n : ℕ) (s : State) (p : ℕ) (t : State)
      → IsValid size s
      → n ≤ s.pool.max
      → palloc malloc s n ≡ some (p, t)
      → Small size n true s p t
  palloc_of n s p t v le e =
      let (m, t', e', w) = palloc-Allocated ok size n s v in
      elim (subst (λ (x : ℕ × State). Allocated size n true s x.0 x.1) (eq_of_some (sym e' ∙ e))
        w) [ inl (_, small) ↦ small | inr (gt, _) ↦ absurd (omega arith) ]

  -- On a valid pool, two small allocations by ngx_palloc that both succeed share no byte,
  -- whatever requests other than a reset are made in between.
  pub palloc-palloc-Apart :
      (s t u w : State) (n k p q : ℕ) (rs : List Request)
      → IsValid size s
      → n ≤ s.pool.max
      → palloc malloc s n ≡ some (p, t)
      → p ≢ 0
      → requests malloc t rs ≡ some u
      → k ≤ u.pool.max
      → palloc malloc u k ≡ some (q, w)
      → q ≢ 0
      → Apart p n q k
  palloc-palloc-Apart s t u w n k p q rs v small e ne run small' e' ne' =
      let first = palloc_of n s p t v small e in
      let (u', e'', kept) = requests-Kept t rs first.valid in
      let same : u' ≡ u = eq_of_some (sym e'' ∙ run) in
      let kept_u : Kept size t u = subst (λ x. Kept size t x) same kept in
      let second = palloc_of k u q w kept_u.valid small' e' in
      elim first.outcome [
        | inl (null, _) ↦ absurd (ne null)
        | inr (_, _, g) ↦ elim second.outcome [
          | inl (null, _) ↦ absurd (ne' null)
          | inr (_, _, g') ↦ g'.fresh p n (kept_u.kept p n g.used)
        ]
      ]

  calls-IsValid :
      (s : State) (cs : List Call)
      → IsValid size s
      → (t : State) × (calls malloc s cs ≡ some t)
        × IsValid size t
        × ((a : ℕ) → residue t a ≡ residue s a)
  unfolding calls call
  calls-IsValid s [] v = (s, refl, v, λ a. refl)
  calls-IsValid s (request r ∷ cs) v =
      let (t, e, w) = perform-Kept s r v in
      let (u, e', v', f) = calls-IsValid t cs w.valid in rw e (u, e', v', λ a. f a ∙ w.foreign a)
  calls-IsValid s (rewind ∷ cs) v =
      let (t, e, w) = reset_pool-Reset size s v in
      let (u, e', v', f) = calls-IsValid t cs w.valid in rw e (u, e', v', λ a. f a ∙ w.foreign a)

  -- No leak and no double free: with a malloc as documented that does not fail on the pool
  -- itself, and a pool size of at least a header, a multiple of 8 and below 2 ^ 64, a pool is
  -- created, used by any sequence of calls and destroyed without a fault, and then the heap has
  -- at each address what it had before.
  pub create-calls-destroy :
      (pagesize : ℕ) (h : Heap) (cs : List Call)
      → sizeof_pool ≤ size
      → size % 8 ≡ 0
      → size < 2 ^ 64
      → malloc h size ≢ 0
      → (s t : State) × (g : Heap) × (create_pool malloc pagesize h size ≡ (some s, s.heap))
        × (calls malloc s cs ≡ some t)
        × (destroy_pool t ≡ some g)
        × ((a : ℕ) → size_at g a ≡ size_at h a)
  create-calls-destroy pagesize h cs big whole small ne =
      elim (create_pool-Created ok pagesize size h big whole small) [
        | inl (_, null) ↦ absurd (ne null)
        | inr (s, e, c) ↦
            let (t, e', v, f) = calls-IsValid s cs c.valid in
            let (g, e'', f') = destroy_pool_lem size t v in
            (s, t, g, e, e', e'', λ a. f' a ∙ f a ∙ c.foreign a)
      ]
