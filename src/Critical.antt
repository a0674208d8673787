-- ===== src/Critical.antt =====
-- semaphore/sems.c: processes that share a critical section by a System V semaphore.
--
-- Each process is one run of the program; they interleave at every step. `value` is the value of the
-- semaphore, which is 0 when `semget` creates it. `semadj` has the adjustments that the kernel keeps
-- for SEM_UNDO and applies at the exit of a process, as semop(2) documents them; SETVAL clears them.
pub mod Exclusion
pub mod Returned
mod Tests
use mathlib.Core.Path.{subst}
use os_study_code.Base.{
  ℕ, ◌+◌, ◌-◌, ◌<◌, ◌≤◌, ◌≡◌, Bool, true, false, Option, some, List, [], ◌∷◌, map, ◌==◌,
  if◌then◌else◌, get_elem?, set,
}
use os_study_code.Base.Int.{ℤ, pos, negsuc, ◌+ℤ◌, ◌-ℤ◌}

-- `starting` is before the initialization, `argument` says if `argc > 1`; `waiting` and `inside` are
-- before `sem_p` and `sem_v` in a round of the loop.
pub data Phase : Type 0 where
  starting : (argument : Bool) → Phase
  waiting : (round : ℕ) → Phase
  inside : (round : ℕ) → Phase
  ended : Phase

pub record Machine : Type 0 where
  pub value : ℕ
  pub semadj : ℕ → ℤ
  pub phases : List Phase

abbrev pub rounds_each : ℕ
rounds_each = 5

abbrev pub opening : List Bool → Machine
opening arguments = record { value = 0; semadj = λ i. pos 0; phases = map starting arguments }

abbrev pub adjust : ℕ → ℤ → (ℕ → ℤ) → ℕ → ℤ
adjust i n adj j = if i == j then n else adj j

abbrev pub move : ℕ → Phase → Machine → Machine
move i p m = record m { phases = set m.phases i p }

unfoldable pub sem_initial : ℕ → Machine → Machine
sem_initial i m = move i (waiting 0) (record m { value = 1; semadj = λ j. pos 0 })

unfoldable pub sem_p : (i round : ℕ) → Machine → Machine
sem_p i round m =
    move i (inside round)
      (record m { value = m.value - 1; semadj = adjust i (m.semadj i +ℤ pos 1) m.semadj })

unfoldable pub sem_v : (i round : ℕ) → Machine → Machine
sem_v i round m =
    move i (waiting (round + 1))
      (record m { value = m.value + 1; semadj = adjust i (m.semadj i -ℤ pos 1) m.semadj })

-- The kernel decrements at most to 0.
abbrev pub undone : ℕ → ℤ → ℕ
undone value (pos n) = value + n
undone value (negsuc n) = value - (n + 1)

unfoldable pub quit : ℕ → Machine → Machine
quit i m =
    move i ended
      (record m { value = undone m.value (m.semadj i); semadj = adjust i (pos 0) m.semadj })

-- `main` returns after its rounds, and exits if one of its calls fails.
abbrev pub CanEnd : Phase → Type 0
CanEnd (starting argument) = argument ≡ true
CanEnd (waiting round) = Unit
CanEnd (inside round) = Unit
CanEnd ended = ⊥

pub data Step (m : Machine) : Machine → Type 0 where
  initializes : (i : ℕ) → get_elem? m.phases i ≡ some (starting true) → Step m (sem_initial i m)
  begins : (i : ℕ) → get_elem? m.phases i ≡ some (starting false) → Step m (move i (waiting 0) m)
  enters :
      (i round : ℕ)
      → get_elem? m.phases i ≡ some (waiting round)
      → round < rounds_each
      → 0 < m.value
      → Step m (sem_p i round m)
  leaves : (i round : ℕ) → get_elem? m.phases i ≡ some (inside round) → Step m (sem_v i round m)
  ends : (i : ℕ) (p : Phase) → get_elem? m.phases i ≡ some p → CanEnd p → Step m (quit i m)

pub data Reach (arguments : List Bool) : Machine → Type 0 where
  start : Reach arguments (opening arguments)
  later : {m m' : Machine} → Reach arguments m → Step m m' → Reach arguments m'

-- Any number of steps.
pub data Steps (m : Machine) : Machine → Type 0 where
  none_yet : Steps m m
  more : {m' m'' : Machine} → Steps m m' → Step m' m'' → Steps m m''
