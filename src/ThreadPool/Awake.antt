-- ===== src/ThreadPool/Awake.antt =====
-- No signal is lost, and no task is run or freed twice.
use os_study_code.Base.{
  ℕ, suc, ◌+◌, ◌≤◌, ◌<◌, ◌≡◌, ap, ◌⊎◌, inl, inr, false, some, List, [], ◌∷◌, arith, length, count,
  count-append,
}
use os_study_code.ThreadPool.{
  sleepers, Worker, ready, asleep, running, gone, TaskPool, get_elem?, set, finish, exit_thread,
}
use os_study_code.ThreadPool.Queue.{has}
use os_study_code.ThreadPool.Workers.{sleeps, sleepers-set, count-has}
use os_study_code.ThreadPool.Tally.{tally, runs, tally-set, tally-le, served, rest, count-rest}

abbrev pub is_ready : Worker → ℕ
is_ready ready = 1
is_ready asleep = 0
is_ready (running t) = 0
is_ready gone = 0

-- Where a sleeper was not signalled, the workers that come for a task are enough for the queue.
-- A task is queued or in a handler once at most, and it is freed at most as often as it was
-- started and its handler has ended.
pub record Awake (p : TaskPool) (xs : List ℕ) : Type 0 where
  pub fits : p.pending ≤ sleepers p.workers
  pub alert : (p.pending ≡ sleepers p.workers) ⊎ (length xs ≤ p.pending + tally is_ready p.workers)
  pub apart : (t : ℕ) → count t xs + tally (runs t) p.workers ≤ 1
  pub freed_once : (t : ℕ) → count t p.freed + tally (runs t) p.workers ≤ count t p.started

-- What the turn of worker `a` does to the signals.
abbrev pub Draws : (a : Worker) (before after asleep_now : ℕ) → Type 0
Draws a before after asleep_now =
    ((sleeps a ≡ 0) × (is_ready a ≡ 1) × (after ≡ before))
    ⊎ ((sleeps a ≡ 1) × (is_ready a ≡ 0) × (suc after ≡ before))
    ⊎ ((sleeps a ≡ 1) × (is_ready a ≡ 0) × (after ≡ before) × (before < asleep_now))

module _ (p q : TaskPool) (i : ℕ) (a : Worker) (at : get_elem? p.workers i ≡ some a) where
  turn-fits :
      (xs : List ℕ)
      → Draws a p.pending q.pending (sleepers p.workers)
      → Awake p xs
      → q.workers ≡ set p.workers i (served xs)
      → (q.pending ≤ sleepers q.workers)
        × ((q.pending ≡ sleepers q.workers)
            ⊎ (length (rest xs) ≤ q.pending + tally is_ready q.workers))
  turn-fits [] d w now =
      let size = ap sleepers now in
      let more = sleepers-set p.workers i a asleep at in
      elim d [
        | inl (s, r, k) ↦ (omega (arith, size, more, s, k, w.fits), inr (omega arith))
        | inr (inl (s, r, k)) ↦ (omega (arith, size, more, s, k, w.fits), inr (omega arith))
        | inr (inr (s, r, k, lt)) ↦ (omega (arith, size, more, s, k, w.fits), inr (omega arith))
      ]
  turn-fits (x ∷ xs) d w now =
      let size = ap sleepers now in
      let more = sleepers-set p.workers i a (running x) at in
      let size' = ap (tally is_ready) now in
      let more' = tally-set is_ready p.workers i a (running x) at in
      elim d [
        | inl (s, r, k) ↦ (
          omega (arith, size, more, s, k, w.fits),
          elim w.alert [
            | inl all ↦ inl (omega (arith, size, more, s, k, all))
            | inr le ↦ inr (omega (arith, size', more', r, k, le))
          ],
        )
        | inr (inl (s, r, k)) ↦ (
          omega (arith, size, more, s, k, w.fits),
          elim w.alert [
            | inl all ↦ inl (omega (arith, size, more, s, k, all))
            | inr le ↦ inr (omega (arith, size', more', r, k, le))
          ],
        )
        | inr (inr (s, r, k, lt)) ↦ (
          omega (arith, size, more, s, k, lt),
          elim w.alert [
            | inl all ↦ absurd (omega (arith, all, lt))
            | inr le ↦ inr (omega (arith, size', more', r, k, le))
          ],
        )
      ]

  pub turn-Awake :
      (xs : List ℕ)
      → Draws a p.pending q.pending (sleepers p.workers)
      → ((t : ℕ) → runs t a ≡ 0)
      → ((t : ℕ) → count t q.started ≡ count t p.started + runs t (served xs))
      → q.freed ≡ p.freed
      → q.workers ≡ set p.workers i (served xs)
      → Awake p xs
      → Awake q (rest xs)
  turn-Awake xs d idle begun same now w =
      let (f, l) = turn-fits xs d w now in
      record {
        fits = f;
        alert = l;
        apart = λ t. omega (
          arith,
          w.apart t,
          count-rest t xs,
          ap (tally (runs t)) now,
          tally-set (runs t) p.workers i a (served xs) at,
          idle t,
        );
        freed_once = λ t. omega (
          arith,
          w.freed_once t,
          begun t,
          ap (count t) same,
          ap (tally (runs t)) now,
          tally-set (runs t) p.workers i a (served xs) at,
          idle t,
        );
      }

count-one : (u t : ℕ) → count u (t ∷ []) ≡ runs u (running t)
count-one u t = ground arith

-- A task that is in a handler is not queued.
pub runs-has :
    (p : TaskPool) (xs : List ℕ) (i t : ℕ)
    → Awake p xs
    → get_elem? p.workers i ≡ some (running t)
    → has t xs ≡ false
runs-has p xs i t w at =
    let one : runs t (running t) ≡ 1 = ground arith in
    count-has t xs (omega (arith, w.apart t, tally-le (runs t) p.workers i (running t) at, one))

pub finish-Awake :
    (p : TaskPool) (xs : List ℕ) (i t : ℕ)
    → get_elem? p.workers i ≡ some (running t)
    → Awake p xs
    → Awake (finish p i t) xs
unfolding finish
finish-Awake p xs i t at w =
    let size = sleepers-set p.workers i (running t) ready at in
    let more = tally-set is_ready p.workers i (running t) ready at in
    record {
      fits = omega (arith, size, w.fits);
      alert = elim w.alert [
        | inl all ↦ inl (omega (arith, size, all))
        | inr le ↦ inr (omega (arith, more, le))
      ];
      apart = λ u. omega (arith, w.apart u, tally-set (runs u) p.workers i (running t) ready at);
      freed_once = λ u. omega (
        arith,
        w.freed_once u,
        tally-set (runs u) p.workers i (running t) ready at,
        count-append u p.freed (t ∷ []),
        count-one u t,
      );
    }

pub exit-Awake :
    (p : TaskPool) (xs : List ℕ) (i t : ℕ)
    → get_elem? p.workers i ≡ some (running t)
    → Awake p xs
    → Awake (exit_thread p i) xs
unfolding exit_thread
exit-Awake p xs i t at w =
    let size = sleepers-set p.workers i (running t) gone at in
    let more = tally-set is_ready p.workers i (running t) gone at in
    record {
      fits = omega (arith, size, w.fits);
      alert = elim w.alert [
        | inl all ↦ inl (omega (arith, size, all))
        | inr le ↦ inr (omega (arith, more, le))
      ];
      apart = λ u. omega (arith, w.apart u, tally-set (runs u) p.workers i (running t) gone at);
      freed_once =
          λ u. omega (arith, w.freed_once u, tally-set (runs u) p.workers i (running t) gone at);
    }
