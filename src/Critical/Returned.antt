-- ===== src/Critical/Returned.antt =====
-- The unit of the semaphore is never lost.
use os_study_code.Base.{
  ℕ, zero, suc, ◌+◌, ◌≤◌, ◌≡◌, ap, Bool, true, false, some, List, [], ◌∷◌, arith, if◌then◌else◌,
  get_elem?, set, eq_of_some,
}
use os_study_code.Critical.{
  Phase, starting, waiting, inside, ended, Machine, sem_initial, sem_p, sem_v, undone, quit, Step,
  initializes, begins, enters, leaves, ends, Reach, Steps, none_yet, more,
}
use os_study_code.Critical.Exclusion.{
  entered, occupants, initializers, load, loads-set, occupants-le, Kept, Step-Kept, Reach-Kept,
  sem_initial-Kept,
}

abbrev pending : Phase → ℕ
pending (starting argument) = if argument then 1 else 0
pending (waiting round) = 0
pending (inside round) = 0
pending ended = 0

load-entered : (p : Phase) → load p ≡ entered p + pending p
load-entered (starting argument) = omega arith
load-entered (waiting round) = omega arith
load-entered (inside round) = omega arith
load-entered ended = omega arith

occupants-set :
    (ps : List Phase) (i : ℕ) (p q : Phase)
    → get_elem? ps i ≡ some p
    → occupants (set ps i q) + entered p ≡ occupants ps + entered q
occupants-set [] i p q h = cc
occupants-set (x ∷ ps) zero p q h = let even = ap entered (eq_of_some h) in omega (arith, even)
occupants-set (x ∷ ps) (suc i) p q h = omega (arith, occupants-set ps i p q h)

-- The unit is in the semaphore or with the process inside; with what is `Kept`, nobody is still to
-- initialize.
record Whole (m : Machine) : Type 0 where
  kept : Kept m
  unit : m.value + occupants m.phases ≡ 1

none_pending :
    (m : Machine) (i : ℕ) (p : Phase) → Whole m → get_elem? m.phases i ≡ some p → pending p ≡ 0
none_pending m i p w at =
    let change = loads-set m.phases i p ended at in
    let change' = occupants-set m.phases i p ended at in
    let rest = occupants-le (set m.phases i ended) in
    omega (arith, w.kept.single, w.unit, change, change', rest, load-entered p)

Step-unit : {m m' : Machine} → Whole m → Step m m' → m'.value + occupants m'.phases ≡ 1
unfolding sem_initial sem_p sem_v quit
Step-unit {m} w (initializes i at) =
    let never = none_pending m i (starting true) w at in absurd (omega (arith, never))
Step-unit {m} w (begins i at) =
    omega (arith, w.unit, occupants-set m.phases i (starting false) (waiting 0) at)
Step-unit {m} w (enters i round at lt free) =
    omega (arith, w.unit, occupants-set m.phases i (waiting round) (inside round) at)
Step-unit {m} w (leaves i round at) =
    omega (arith, w.unit, occupants-set m.phases i (inside round) (waiting (round + 1)) at)
Step-unit {m} w (ends i p at can) =
    let given : undone m.value (m.semadj i) ≡ m.value + entered p =
      ap (undone m.value) (w.kept.tidy i p at) in
    omega (arith, given, w.unit, occupants-set m.phases i p ended at)

Steps-Whole : {m m' : Machine} → Whole m → Steps m m' → Whole m'
Steps-Whole w none_yet = w
Steps-Whole w (more r s) =
    let v = Steps-Whole w r in record { kept = Step-Kept v.kept s; unit = Step-unit v s }

-- Where at most one of the processes is started with an argument, once it has initialized the
-- semaphore, the value of the semaphore and the number of processes in the critical section
-- together are exactly 1 after any steps: a process that ends inside gives its unit back by
-- SEM_UNDO.
pub sem_initial-Steps :
    (bs : List Bool)
    → initializers bs ≤ 1
    → {m m' : Machine} (i : ℕ) → Reach bs m
    → get_elem? m.phases i ≡ some (starting true)
    → Steps (sem_initial i m) m'
    → m'.value + occupants m'.phases ≡ 1
unfolding sem_initial
sem_initial-Steps bs le {m} i r at steps = (Steps-Whole whole steps).unit
  where
    before : Kept m
    before = Reach-Kept bs le r

    whole : Whole (sem_initial i m)
    whole =
        let change = loads-set m.phases i (starting true) (waiting 0) at in
        let few = occupants-le (set m.phases i (waiting 0)) in
        record {
          kept = sem_initial-Kept m i before at;
          unit = omega (arith, before.single, change, few);
        }
