-- ===== src/ThreadPool/Comes.antt =====
-- Where a task waits in the queue, a worker comes for it.
use os_study_code.Base.{
  ℕ, suc, ◌≤◌, ◌<◌, ◌≡◌, refl, ◌⊎◌, inl, inr, some, List, [], ◌∷◌, arith, length, Bool-cases, ltb,
}
use os_study_code.ThreadPool.{sleepers, Worker, ready, asleep, running, gone, TaskPool, get_elem?}
use os_study_code.ThreadPool.Tally.{tally, is_gone}
use os_study_code.ThreadPool.Awake.{is_ready, Awake}

find_ready : (ws : List Worker) → 1 ≤ tally is_ready ws → (i : ℕ) × (get_elem? ws i ≡ some ready)
find_ready [] le = absurd (omega arith)
find_ready (ready ∷ ws) le = (0, refl)
find_ready (asleep ∷ ws) le = let (i, at) = find_ready ws (omega arith) in (suc i, at)
find_ready (running t ∷ ws) le = let (i, at) = find_ready ws (omega arith) in (suc i, at)
find_ready (gone ∷ ws) le = let (i, at) = find_ready ws (omega arith) in (suc i, at)

find_asleep : (ws : List Worker) → 1 ≤ sleepers ws → (i : ℕ) × (get_elem? ws i ≡ some asleep)
find_asleep [] le = absurd (omega arith)
find_asleep (asleep ∷ ws) le = (0, refl)
find_asleep (ready ∷ ws) le = let (i, at) = find_asleep ws (omega arith) in (suc i, at)
find_asleep (running t ∷ ws) le = let (i, at) = find_asleep ws (omega arith) in (suc i, at)
find_asleep (gone ∷ ws) le = let (i, at) = find_asleep ws (omega arith) in (suc i, at)

-- If nobody sleeps and not all are gone, somebody is before the loop or in a handler.
find_up :
    (ws : List Worker)
    → sleepers ws ≡ 0
    → suc (tally is_gone ws) ≤ length ws
    → (i : ℕ) × ((get_elem? ws i ≡ some ready) ⊎ ((t : ℕ) × (get_elem? ws i ≡ some (running t))))
find_up [] up le = absurd (omega arith)
find_up (ready ∷ ws) up le = (0, inl refl)
find_up (asleep ∷ ws) up le = absurd (omega (arith, up))
find_up (running t ∷ ws) up le = (0, inr (t, refl))
find_up (gone ∷ ws) up le = let (i, w) = find_up ws up (omega arith) in (suc i, w)

-- A worker before the loop, one that was signalled, or one in a handler.
abbrev pub Coming : TaskPool → ℕ → Type 0
Coming p i =
    (get_elem? p.workers i ≡ some ready)
    ⊎ ((get_elem? p.workers i ≡ some asleep) × (0 < p.pending))
    ⊎ ((t : ℕ) × (get_elem? p.workers i ≡ some (running t)))

pub a_worker_comes :
    (p : TaskPool) (x : ℕ) (xs : List ℕ)
    → Awake p (x ∷ xs)
    → suc (tally is_gone p.workers) ≤ length p.workers
    → (i : ℕ) × Coming p i
a_worker_comes p x xs w left = elim (Bool-cases (ltb 0 p.pending)) [
  | inl called ↦
      let lt : 0 < p.pending = ground arith in
      let (i, at) = find_asleep p.workers (omega (arith, lt, w.fits)) in (i, inr (inl (at, lt)))
  | inr nobody ↦
      let none_called : p.pending ≡ 0 = ground arith in
      elim w.alert [
        | inr le ↦
            let (i, at) = find_ready p.workers (omega (arith, le, none_called)) in (i, inl at)
        | inl all ↦ up (find_up p.workers (omega (arith, all, none_called)) left)
      ]
]
  where
    up :
        (i : ℕ) × ((get_elem? p.workers i ≡ some ready)
            ⊎ ((t : ℕ) × (get_elem? p.workers i ≡ some (running t))))
        → (i : ℕ) × Coming p i
    up (i, inl at) = (i, inl at)
    up (i, inr busy) = (i, inr (inr busy))
