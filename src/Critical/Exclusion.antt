-- ===== src/Critical/Exclusion.antt =====
-- At most one process is in the critical section, if at most one initializes the semaphore.
use mathlib.Core.Path.{subst}
use os_study_code.Base.{
  ℕ, zero, suc, ◌+◌, ◌≤◌, ◌<◌, ◌≡◌, refl, sym, ap, ◌∙◌, Bool, true, false, some, List, [], ◌∷◌,
  arith, ◌==◌, map, if◌then◌else◌, inl, inr, Bool-cases, get_elem?, set, get_elem?-set_self,
  get_elem?-set_ne, eq_of_some, eq_of_==,
}
use os_study_code.Base.Int.{ℤ, pos, ◌+ℤ◌, ◌-ℤ◌}
use os_study_code.Critical.{
  Phase, starting, waiting, inside, ended, Machine, opening, adjust, move, sem_initial, sem_p,
  sem_v, undone, quit, Step, initializes, begins, enters, leaves, ends, Reach, start, later,
}

abbrev pub entered : Phase → ℕ
entered (starting argument) = 0
entered (waiting round) = 0
entered (inside round) = 1
entered ended = 0

-- The processes in the critical section.
abbrev pub occupants : List Phase → ℕ
occupants [] = 0
occupants (p ∷ ps) = entered p + occupants ps

abbrev pub initializers : List Bool → ℕ
initializers [] = 0
initializers (b ∷ bs) = (if b then 1 else 0) + initializers bs

-- A process that is inside, or that is still to initialize.
abbrev pub load : Phase → ℕ
load (starting argument) = if argument then 1 else 0
load (waiting round) = 0
load (inside round) = 1
load ended = 0

abbrev pub loads : List Phase → ℕ
loads [] = 0
loads (p ∷ ps) = load p + loads ps

pub loads-set :
    (ps : List Phase) (i : ℕ) (p q : Phase)
    → get_elem? ps i ≡ some p
    → loads (set ps i q) + load p ≡ loads ps + load q
loads-set [] i p q h = cc
loads-set (x ∷ ps) zero p q h =
    let same : x ≡ p = eq_of_some h in let even = ap load same in omega (arith, even)
loads-set (x ∷ ps) (suc i) p q h = omega (arith, loads-set ps i p q h)

pub load-le : (ps : List Phase) (i : ℕ) (p : Phase) → get_elem? ps i ≡ some p → load p ≤ loads ps
load-le [] i p h = cc
load-le (x ∷ ps) zero p h = let even = ap load (eq_of_some h) in omega (arith, even)
load-le (x ∷ ps) (suc i) p h = omega (arith, load-le ps i p h)

entered-le : (p : Phase) → entered p ≤ load p
entered-le (starting argument) = omega arith
entered-le (waiting round) = omega arith
entered-le (inside round) = omega arith
entered-le ended = omega arith

pub occupants-le : (ps : List Phase) → occupants ps ≤ loads ps
occupants-le [] = omega arith
occupants-le (p ∷ ps) = omega (arith, entered-le p, occupants-le ps)

loads-starting : (bs : List Bool) → loads (map starting bs) ≡ initializers bs
loads-starting [] = refl
loads-starting (b ∷ bs) = omega (arith, loads-starting bs)

-- One unit is in the semaphore, inside, or still to come; adjustments are those of who is inside.
pub record Kept (m : Machine) : Type 0 where
  pub single : m.value + loads m.phases ≤ 1
  pub tidy : (i : ℕ) (p : Phase) → get_elem? m.phases i ≡ some p → m.semadj i ≡ pos (entered p)

-- A step of one process to `q`, with its adjustment.
tidy_after :
    (m : Machine) (i : ℕ) (p q : Phase) (n : ℤ)
    → Kept m
    → get_elem? m.phases i ≡ some p
    → n ≡ pos (entered q)
    → (j : ℕ) (x : Phase) → get_elem? (set m.phases i q) j ≡ some x
    → adjust i n m.semadj j ≡ pos (entered x)
tidy_after m i p q n k at is j x h = elim (Bool-cases (i == j)) [
  | inl hit ↦ rw hit (
      is
      ∙ ap (λ y. pos (entered y))
          (eq_of_some (
            sym (get_elem?-set_self m.phases i q p at)
            ∙ subst (λ a. get_elem? (set m.phases i q) a ≡ some x) (sym (eq_of_== i j hit)) h)))
  | inr miss ↦ rw miss (k.tidy j x (sym (get_elem?-set_ne m.phases i j q (ground arith)) ∙ h))
]

pub sem_initial-Kept :
    (m : Machine) (i : ℕ)
    → Kept m
    → get_elem? m.phases i ≡ some (starting true)
    → Kept (sem_initial i m)
unfolding sem_initial
sem_initial-Kept m i k at =
    let change = loads-set m.phases i (starting true) (waiting 0) at in
    let least = load-le m.phases i (starting true) at in
    record {
      single = omega (arith, change, k.single, least);
      tidy = λ j x h.
          let bound = load-le (set m.phases i (waiting 0)) j x h in
          let none_inside : entered x ≡ 0 = omega (arith, entered-le x, bound, change, k.single) in
          ap pos (sym none_inside);
    }

begin-Kept :
    (m : Machine) (i : ℕ)
    → Kept m
    → get_elem? m.phases i ≡ some (starting false)
    → Kept (move i (waiting 0) m)
begin-Kept m i k at = record {
  single = omega (arith, loads-set m.phases i (starting false) (waiting 0) at, k.single);
  tidy = λ j x h. elim (Bool-cases (i == j)) [
    | inl hit ↦
        subst (λ a. m.semadj a ≡ pos (entered x)) (eq_of_== i j hit)
          (k.tidy i (starting false) at
            ∙ ap (λ y. pos (entered y))
                (eq_of_some (
                  sym (get_elem?-set_self m.phases i (waiting 0) (starting false) at)
                  ∙ subst (λ a. get_elem? (set m.phases i (waiting 0)) a ≡ some x)
                      (sym (eq_of_== i j hit)) h)))
    | inr miss ↦ k.tidy j x (sym (get_elem?-set_ne m.phases i j (waiting 0) (ground arith)) ∙ h)
  ];
}

sem_p-Kept :
    (m : Machine) (i round : ℕ)
    → Kept m
    → get_elem? m.phases i ≡ some (waiting round)
    → 0 < m.value
    → Kept (sem_p i round m)
unfolding sem_p ◌+ℤ◌
sem_p-Kept m i round k at free = record {
  single = omega (arith, loads-set m.phases i (waiting round) (inside round) at, k.single);
  tidy =
      tidy_after m i (waiting round) (inside round) (m.semadj i +ℤ pos 1) k at
        (ap (λ n. n +ℤ pos 1) (k.tidy i (waiting round) at));
}

sem_v-Kept :
    (m : Machine) (i round : ℕ)
    → Kept m
    → get_elem? m.phases i ≡ some (inside round)
    → Kept (sem_v i round m)
unfolding sem_v ◌-ℤ◌
sem_v-Kept m i round k at = record {
  single = omega (arith, loads-set m.phases i (inside round) (waiting (round + 1)) at, k.single);
  tidy =
      tidy_after m i (inside round) (waiting (round + 1)) (m.semadj i -ℤ pos 1) k at
        (ap (λ n. n -ℤ pos 1) (k.tidy i (inside round) at));
}

quit-Kept :
    (m : Machine) (i : ℕ) (p : Phase) → Kept m → get_elem? m.phases i ≡ some p → Kept (quit i m)
unfolding quit
quit-Kept m i p k at = record {
  single =
      let given : undone m.value (m.semadj i) ≡ m.value + entered p =
        ap (undone m.value) (k.tidy i p at) in
      omega (arith, given, entered-le p, loads-set m.phases i p ended at, k.single);
  tidy = tidy_after m i p ended (pos 0) k at refl;
}

pub Step-Kept : {m m' : Machine} → Kept m → Step m m' → Kept m'
Step-Kept {m} k (initializes i at) = sem_initial-Kept m i k at
Step-Kept {m} k (begins i at) = begin-Kept m i k at
Step-Kept {m} k (enters i round at lt free) = sem_p-Kept m i round k at free
Step-Kept {m} k (leaves i round at) = sem_v-Kept m i round k at
Step-Kept {m} k (ends i p at can) = quit-Kept m i p k at

opening-Kept : (bs : List Bool) → initializers bs ≤ 1 → Kept (opening bs)
opening-Kept bs le = record {
  single = omega (arith, loads-starting bs);
  tidy = λ i p h. outside bs i p h;
}
  where
    outside :
        (cs : List Bool) (i : ℕ) (p : Phase)
        → get_elem? (map starting cs) i ≡ some p
        → pos 0 ≡ pos (entered p)
    outside [] i p h = cc
    outside (c ∷ cs) zero p h = ap (λ x. pos (entered x)) (eq_of_some h)
    outside (c ∷ cs) (suc i) p h = outside cs i p h

pub Reach-Kept : (bs : List Bool) → initializers bs ≤ 1 → {m : Machine} → Reach bs m → Kept m
Reach-Kept bs le start = opening-Kept bs le
Reach-Kept bs le (later r s) = Step-Kept (Reach-Kept bs le r) s

-- Where at most one of the processes is started with an argument, in any interleaving of their
-- steps, with processes that end early because a call fails included, the value of the semaphore
-- and the number of processes in the critical section together are at most 1, so never two are
-- inside.
pub Reach-exclusion :
    (bs : List Bool)
    → initializers bs ≤ 1
    → {m : Machine} → Reach bs m
    → m.value + occupants m.phases ≤ 1
Reach-exclusion bs le {m} r =
    let k = Reach-Kept bs le r in omega (arith, k.single, occupants-le m.phases)
