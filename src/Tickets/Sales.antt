-- ===== src/Tickets/Sales.antt =====
-- What the stations have sold, in any interleaving.
use mathlib.Core.Path.{subst}
use os_study_code.Base.{
  ℕ, zero, suc, ◌+◌, ◌-◌, ◌≤◌, ◌<◌, ◌≡◌, refl, sym, ap, ◌∙◌, Bool, true, false, List, [], ◌∷◌,
  arith, ltb, leb, if◌then◌else◌, ◌⊎◌, inl, inr, Bool-cases,
}
use os_study_code.Base.Int.{ℤ, pos, ◌-ℤ◌, ltb_ℤ}
use os_study_code.Tickets.{
  child_station, main_station, Station, outside, selling, counting, Office, mutex_lock, sell,
  count_down, Step, locks, sells, counts, Reach, start, later,
}

-- The tickets 1000, 999, ... in the order of their sale, the latest first.
abbrev pub tickets : ℕ → List ℤ
tickets zero = []
tickets (suc n) = pos (1000 - n) ∷ tickets n

abbrev pub rounds : Station → ℕ
rounds (outside i) = i
rounds (selling i) = i
rounds (counting i) = i

abbrev pub holding : Station → ℕ
holding (outside i) = 0
holding (selling i) = 1
holding (counting i) = 1

abbrev pub sales : Station → ℕ
sales (outside i) = i
sales (selling i) = i
sales (counting i) = i + 1

-- What holds of two stations `s` and `t` with the other parts of the state: the mutex excludes,
-- the counter has lost a ticket for each round done, and the tickets sold are the next ones.
pub record Agreed (s t : Station) (value : ℤ) (locked : Bool) (sold : List ℤ) : Type 0 where
  pub excludes : holding s + holding t ≡ (if locked then 1 else 0)
  pub limits : (rounds s + holding s ≤ 10) × (rounds t + holding t ≤ 10)
  pub left_over : value ≡ pos (1000 - (rounds s + rounds t))
  pub in_order : sold ≡ tickets (sales s + sales t)

abbrev pub Sound : Office → Type 0
Sound o = Agreed o.at_child o.at_main o.global_value o.locked o.sold

Agreed-swap :
    {s t : Station} {v : ℤ} {l : Bool} {xs : List ℤ} → Agreed s t v l xs → Agreed t s v l xs
Agreed-swap {s} {t} a = record {
  excludes = omega (arith, a.excludes);
  limits = (a.limits.1, a.limits.0);
  left_over = a.left_over ∙ ap (λ n. pos (1000 - n)) (omega arith);
  in_order = a.in_order ∙ ap tickets (omega arith);
}

Agreed-locks :
    (i : ℕ) (t : Station) (v : ℤ) (l : Bool) (xs : List ℤ)
    → i < 10
    → l ≡ false
    → Agreed (outside i) t v l xs
    → Agreed (selling i) t v true xs
Agreed-locks i t v l xs lt free a = record {
  excludes = ground (arith, a.excludes);
  limits = (omega arith, a.limits.1);
  left_over = a.left_over;
  in_order = a.in_order;
}

-- Under the mutex the other station has sold what it counted.
sales-holding : (t : Station) → holding t ≡ 0 → sales t ≡ rounds t
sales-holding (outside i) h = refl
sales-holding (selling i) h = refl
sales-holding (counting i) h = absurd (omega (arith, h))

Agreed-sells :
    (i : ℕ) (t : Station) (v : ℤ) (l : Bool) (xs : List ℤ)
    → Agreed (selling i) t v l xs
    → Agreed (counting i) t v l (if ltb_ℤ (pos 0) v then v ∷ xs else xs)
Agreed-sells i t v l xs a =
    let alone : holding t ≡ 0 = ground (arith, a.excludes) in
    let even = sales-holding t alone in
    let one_more : suc (i + sales t) ≡ i + 1 + sales t = omega arith in
    let grown : tickets (suc (i + sales t)) ≡ tickets (i + 1 + sales t) = ap tickets one_more in
    let some_left : ltb_ℤ (pos 0) v ≡ true =
      ap (ltb_ℤ (pos 0)) a.left_over ∙ ground (arith, a.limits.0, a.limits.1) in
    record {
      excludes = a.excludes;
      limits = a.limits;
      left_over = a.left_over;
      in_order = rw some_left (
          ap (λ x. x ∷ xs) a.left_over
          ∙ ap (λ ys. pos (1000 - (i + rounds t)) ∷ ys) a.in_order
          ∙ ap (λ n. pos (1000 - (i + n)) ∷ tickets (i + sales t)) (sym even)
          ∙ grown);
    }

Agreed-counts :
    (i : ℕ) (t : Station) (v : ℤ) (l : Bool) (xs : List ℤ)
    → Agreed (counting i) t v l xs
    → Agreed (outside (i + 1)) t (v -ℤ pos 1) false xs
unfolding ◌-ℤ◌
Agreed-counts i t v l xs a = record {
  excludes = ground (arith, a.excludes);
  limits = (omega (arith, a.limits.0), a.limits.1);
  left_over =
      ap (λ x. x -ℤ pos 1) a.left_over
      ∙ less (i + rounds t) (omega (arith, a.limits.0, a.limits.1))
      ∙ ap (λ n. pos (1000 - n)) (omega arith);
  in_order = a.in_order;
}
  where
    less : (n : ℕ) → n < 1000 → pos (1000 - n) -ℤ pos 1 ≡ pos (1000 - (n + 1))
    less n lt =
        let enough : leb 1 (1000 - n + 0) ≡ true = ground arith in rw enough (ap pos (omega arith))

Step-Sound : {o o' : Office} → Sound o → Step o o' → Sound o'
unfolding mutex_lock sell count_down
Step-Sound {o} a (locks child_station i at lt free) =
    Agreed-locks i o.at_main o.global_value o.locked o.sold lt free
      (subst (λ s. Agreed s o.at_main o.global_value o.locked o.sold) at a)
Step-Sound {o} a (locks main_station i at lt free) = Agreed-swap (
    Agreed-locks i o.at_child o.global_value o.locked o.sold lt free
      (subst (λ s. Agreed s o.at_child o.global_value o.locked o.sold) at (Agreed-swap a)))
Step-Sound {o} a (sells child_station i at) =
    Agreed-sells i o.at_main o.global_value o.locked o.sold
      (subst (λ s. Agreed s o.at_main o.global_value o.locked o.sold) at a)
Step-Sound {o} a (sells main_station i at) = Agreed-swap (
    Agreed-sells i o.at_child o.global_value o.locked o.sold
      (subst (λ s. Agreed s o.at_child o.global_value o.locked o.sold) at (Agreed-swap a)))
Step-Sound {o} a (counts child_station i at) =
    Agreed-counts i o.at_main o.global_value o.locked o.sold
      (subst (λ s. Agreed s o.at_main o.global_value o.locked o.sold) at a)
Step-Sound {o} a (counts main_station i at) = Agreed-swap (
    Agreed-counts i o.at_child o.global_value o.locked o.sold
      (subst (λ s. Agreed s o.at_child o.global_value o.locked o.sold) at (Agreed-swap a)))

-- In every state that the two stations reach, in any interleaving, at most one is inside the
-- mutex and exactly if it is locked, each has done at most ten rounds, the counter is 1000 less
-- the rounds done, and the tickets sold are 1000, 999 and so on in this order, each once.
pub Reach-Sound : {o : Office} → Reach o → Sound o
Reach-Sound start = record {
  excludes = refl;
  limits = (omega arith, omega arith);
  left_over = refl;
  in_order = refl;
}
Reach-Sound (later r s) = Step-Sound (Reach-Sound r) s

-- Once both stations have done their ten rounds, in any interleaving, the tickets 1000 down to
-- 981 are sold in this order, the counter is 980 and the mutex is free.
pub Reach-done :
    {o : Office}
    → Reach o
    → o.at_child ≡ outside 10
    → o.at_main ≡ outside 10
    → (o.sold ≡ tickets 20) × (o.global_value ≡ pos 980) × (o.locked ≡ false)
Reach-done {o} r child_done main_done =
    let a =
      subst (λ s. Agreed s o.at_main o.global_value o.locked o.sold) child_done (Reach-Sound r) in
    let b = subst (λ t. Agreed (outside 10) t o.global_value o.locked o.sold) main_done a in
    (b.in_order, b.left_over, ground (arith, b.excludes))

Agreed-progress :
    (o : Office) (s t : Station)
    → o.at_child ≡ s
    → o.at_main ≡ t
    → Agreed s t o.global_value o.locked o.sold
    → ((o' : Office) × Step o o') ⊎ ((s ≡ outside 10) × (t ≡ outside 10))
Agreed-progress o (selling i) t at at' a = inl (sell child_station i o, sells child_station i at)
Agreed-progress o (counting i) t at at' a =
    inl (count_down child_station i o, counts child_station i at)
Agreed-progress o (outside i) (selling j) at at' a =
    inl (sell main_station j o, sells main_station j at')
Agreed-progress o (outside i) (counting j) at at' a =
    inl (count_down main_station j o, counts main_station j at')
Agreed-progress o (outside i) (outside j) at at' a =
    let free : o.locked ≡ false = ground (arith, a.excludes) in
    elim (Bool-cases (ltb i 10)) [
      | inl more ↦ inl (mutex_lock child_station i o, locks child_station i at (ground arith) free)
      | inr over ↦ elim (Bool-cases (ltb j 10)) [
        | inl more ↦ inl (mutex_lock main_station j o, locks main_station j at' (ground arith) free)
        | inr over' ↦
            inr (ap outside (ground (arith, a.limits.0)), ap outside (ground (arith, a.limits.1)))
      ]
    ]

-- In every reachable state one of the stations can take a step, or both have done their ten
-- rounds: there is no deadlock.
pub Reach-Step :
    {o : Office}
    → Reach o
    → ((o' : Office) × Step o o') ⊎ ((o.at_child ≡ outside 10) × (o.at_main ≡ outside 10))
Reach-Step {o} r = Agreed-progress o o.at_child o.at_main refl refl (Reach-Sound r)
