-- ===== src/Critical/Tests.antt =====
-- Runs of the processes at concrete steps.
use os_study_code.Base.{◌+◌, ◌≤◌, ◌≡◌, refl, true, false, List, [], ◌∷◌, arith, Bool}
use os_study_code.Critical.{
  Machine, opening, sem_initial, sem_p, initializes, enters, Reach, start, later, Steps, none_yet,
  more,
}
use os_study_code.Critical.Exclusion.{occupants, Reach-exclusion}
use os_study_code.Critical.Returned.{sem_initial-Steps}

-- The first process is started with an argument.
abbrev arguments : List Bool
arguments = true ∷ false ∷ []

abbrev initialized : Machine
initialized = sem_initial 0 (opening arguments)

abbrev entered : Machine
entered = sem_p 0 0 initialized

initialized-Steps : Steps initialized entered
unfolding sem_initial
initialized-Steps = more none_yet (enters 0 0 refl (omega arith) (omega arith))

entered-Reach : Reach arguments entered
unfolding sem_initial
entered-Reach =
    later (later start (initializes 0 refl)) (enters 0 0 refl (omega arith) (omega arith))

Reach-exclusion_example : entered.value + occupants entered.phases ≤ 1
Reach-exclusion_example = Reach-exclusion arguments (omega arith) entered-Reach

sem_initial-Steps_example : entered.value + occupants entered.phases ≡ 1
sem_initial-Steps_example = sem_initial-Steps arguments (omega arith) 0 start refl initialized-Steps

-- Two processes that are started with an argument get into the critical section together.
abbrev crowded : Machine
crowded = sem_p 1 0 (sem_initial 1 (sem_p 0 0 (sem_initial 0 (opening (true ∷ true ∷ [])))))

crowded-Reach : Reach (true ∷ true ∷ []) crowded
unfolding sem_initial sem_p
crowded-Reach =
    later
      (later
        (later (later start (initializes 0 refl)) (enters 0 0 refl (omega arith) (omega arith)))
        (initializes 1 refl))
      (enters 1 0 refl (omega arith) (omega arith))

crowded-occupants : occupants crowded.phases ≡ 2
unfolding sem_initial sem_p
crowded-occupants = refl
