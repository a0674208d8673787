-- ===== src/ThreadPool/Turns.antt =====
-- The turns of the workers and the posts keep what Awake says, and some worker comes for a task.
use os_study_code.Base.{
  ℕ, ◌+◌, ◌-◌, ◌≤◌, ◌<◌, ◌≡◌, refl, sym, ap, ◌∙◌, ◌⊎◌, inl, inr, Bool-cases, true, false, some,
  List, [], ◌∷◌, ◌++◌, arith, length, length-append, count, count-append, ltb, ◌==◌,
}
use os_study_code.ThreadPool.{
  sleepers, signalled, ready, asleep, running, TaskPool, get_elem?, set, serve, enter, wake,
}
use os_study_code.ThreadPool.Post.{Inv, Refused, Accepted}
use os_study_code.ThreadPool.Workers.{Served, enter-Served, wake-Served, signal-Served}
use os_study_code.ThreadPool.Tally.{tally, runs, served, rest, serve-workers}
use os_study_code.ThreadPool.Awake.{is_ready, Awake, turn-Awake}

serve-keeps :
    (p : TaskPool) (i : ℕ) → ((serve p i).freed ≡ p.freed) × ((serve p i).pending ≡ p.pending)
unfolding serve
serve-keeps p i = elim (Bool-cases (p.links.first == 0)) [
  | inl null ↦ rw null (refl, refl)
  | inr full ↦ rw full (refl, refl)
]

Served-begun :
    (p : TaskPool) (i : ℕ) (xs : List ℕ) (q : TaskPool) (t : ℕ)
    → Served p i xs q
    → count t q.started ≡ count t p.started + runs t (served xs)
Served-begun p i [] q t s = omega (arith, ap (count t) s.2)
Served-begun p i (x ∷ xs) q t s =
    let one : count t (x ∷ []) ≡ runs t (running x) = ground arith in
    omega (arith, ap (count t) s.2, count-append t p.started (x ∷ []), one)

pub enter-workers :
    (p : TaskPool) (i : ℕ) (xs : List ℕ)
    → Inv p xs
    → (enter p i).workers ≡ set p.workers i (served xs)
unfolding enter
enter-workers p i xs inv = serve-workers (record p { waiting = _ }) i xs inv.queue

pub wake-workers :
    (p : TaskPool) (i : ℕ) (xs : List ℕ)
    → Inv p xs
    → (wake p i).workers ≡ set p.workers i (served xs)
unfolding wake
wake-workers p i xs inv = serve-workers (record p { pending = p.pending - 1 }) i xs inv.queue

pub enter-Awake :
    (p : TaskPool) (i : ℕ) (xs : List ℕ)
    → Inv p xs
    → get_elem? p.workers i ≡ some ready
    → Awake p xs
    → Awake (enter p i) (rest xs)
unfolding enter
enter-Awake p i xs inv at w =
    let (same, kept) = serve-keeps (record p { waiting = _ }) i in
    turn-Awake p (enter p i) i ready at xs (inl (refl, refl, kept)) (λ t. refl)
      (λ t. Served-begun p i xs (enter p i) t (enter-Served p i xs inv at)) same
      (enter-workers p i xs inv) w

pub wake-Awake :
    (p : TaskPool) (i : ℕ) (xs : List ℕ)
    → Inv p xs
    → get_elem? p.workers i ≡ some asleep
    → 0 < p.pending
    → Awake p xs
    → Awake (wake p i) (rest xs)
unfolding wake
wake-Awake p i xs inv at called w =
    let (same, kept) = serve-keeps (record p { pending = p.pending - 1 }) i in
    turn-Awake p (wake p i) i asleep at xs (inr (inl (refl, refl, omega (arith, kept, called))))
      (λ t. refl) (λ t. Served-begun p i xs (wake p i) t (signal-Served p i xs inv at)) same
      (wake-workers p i xs inv) w

pub early-Awake :
    (p : TaskPool) (i : ℕ) (xs : List ℕ)
    → Inv p xs
    → get_elem? p.workers i ≡ some asleep
    → p.pending < sleepers p.workers
    → Awake p xs
    → Awake (serve p i) (rest xs)
early-Awake p i xs inv at early w =
    let (same, kept) = serve-keeps p i in
    turn-Awake p (serve p i) i asleep at xs (inr (inr (refl, refl, kept, early))) (λ t. refl)
      (λ t. Served-begun p i xs (serve p i) t (wake-Served p i xs inv at)) same
      (serve-workers p i xs inv.queue) w

pub Refused-Awake :
    (p : TaskPool) (xs : List ℕ) (q : TaskPool) → Refused p xs q → Awake p xs → Awake q xs
Refused-Awake p xs q r w =
    let size = ap sleepers r.workers in
    let more = ap (tally is_ready) r.workers in
    record {
      fits = omega (arith, w.fits, size, r.pending);
      alert = elim w.alert [
        | inl all ↦ inl (omega (arith, all, size, r.pending))
        | inr le ↦ inr (omega (arith, le, more, r.pending))
      ];
      apart = λ t. omega (arith, w.apart t, ap (tally (runs t)) r.workers);
      freed_once = λ t. omega (
        arith,
        w.freed_once t,
        ap (tally (runs t)) r.workers,
        ap (count t) r.freed,
        ap (count t) r.started,
      );
    }

pub Accepted-Awake :
    (p : TaskPool) (xs : List ℕ) (t : ℕ) (q : TaskPool)
    → Accepted p xs t q
    → count t xs ≡ 0
    → tally (runs t) p.workers ≡ 0
    → Awake p xs
    → Awake q (xs ++ (t ∷ []))
Accepted-Awake p xs t q r new idle w =
    let (f, l) = alert in
    record {
      fits = f;
      alert = l;
      apart = λ u. apart_of u (Bool-cases (t == u));
      freed_once = λ u. omega (
        arith,
        w.freed_once u,
        ap (tally (runs u)) r.workers,
        ap (count u) r.freed,
        ap (count u) r.started,
      );
    }
  where
    alert :
        (q.pending ≤ sleepers q.workers)
        × ((q.pending ≡ sleepers q.workers)
            ⊎ (length (xs ++ (t ∷ [])) ≤ q.pending + tally is_ready q.workers))
    alert =
        let size = ap sleepers r.workers in
        let more = ap (tally is_ready) r.workers in
        elim (Bool-cases (ltb p.pending (sleepers p.workers))) [
          | inl called ↦
              let lt : p.pending < sleepers p.workers = ground arith in
              let now : signalled p ≡ p.pending + 1 = rw called refl in
              (
                omega (arith, lt, now, size, r.pending),
                elim w.alert [
                  | inl all ↦ absurd (omega (arith, all, lt))
                  | inr le ↦
                      inr (omega (arith, le, more, now, r.pending, length-append xs (t ∷ [])))
                ],
              )
          | inr nobody ↦
              let le : sleepers p.workers ≤ p.pending = ground arith in
              let now : signalled p ≡ p.pending = rw nobody refl in
              (
                omega (arith, w.fits, now, size, r.pending),
                inl (omega (arith, w.fits, le, now, size, r.pending)),
              )
        ]

    apart_of :
        (u : ℕ)
        → ((t == u) ≡ true) ⊎ ((t == u) ≡ false)
        → count u (xs ++ (t ∷ [])) + tally (runs u) q.workers ≤ 1
    apart_of u (inl hit) =
        let same : t ≡ u = ground arith in
        let one : count u (t ∷ []) ≤ 1 = ground arith in
        let none_left : count u xs ≡ 0 = ap (λ x. count x xs) (sym same) ∙ new in
        let at_rest : tally (runs u) p.workers ≡ 0 =
          ap (λ x. tally (runs x) p.workers) (sym same) ∙ idle in
        omega (
          arith,
          count-append u xs (t ∷ []),
          one,
          none_left,
          at_rest,
          ap (tally (runs u)) r.workers,
        )
    apart_of u (inr miss) =
        let one : count u (t ∷ []) ≡ 0 = ground arith in
        omega (arith, w.apart u, count-append u xs (t ∷ []), one, ap (tally (runs u)) r.workers)
