-- ===== src/Tickets/Tests.antt =====
-- The ticket office at concrete states.
use os_study_code.Base.{zero, suc, ◌<◌, ◌≤◌, ap, ℕ, ◌≡◌, refl, false, arith}
use os_study_code.Tickets.{
  Who, station, child_station, main_station, outside, Office, opening, mutex_lock, sell, count_down,
  locks, sells, counts, Reach, start, later,
}
use os_study_code.Tickets.Sales.{Sound, Reach-Sound}

-- The child has the mutex and has sold ticket 1000.
abbrev one_sold : Office
one_sold = sell child_station 0 (mutex_lock child_station 0 opening)

one_sold-Reach : Reach one_sold
unfolding mutex_lock
one_sold-Reach =
    later (later start (locks child_station 0 refl (omega arith) refl)) (sells child_station 0 refl)

Reach-Sound_example : Sound one_sold
Reach-Sound_example = Reach-Sound one_sold-Reach

abbrev round : Who → ℕ → Office → Office
round w i o = count_down w i (sell w i (mutex_lock w i o))

-- The child sells all its tickets, then the main station does.
abbrev child_rounds : ℕ → Office
child_rounds zero = opening
child_rounds (suc n) = round child_station n (child_rounds n)

abbrev main_rounds : ℕ → Office
main_rounds zero = child_rounds 10
main_rounds (suc n) = round main_station n (main_rounds n)

round-Reach :
    (w : Who) (i : ℕ) (o : Office)
    → Reach o
    → station w o ≡ outside i
    → i < 10
    → o.locked ≡ false
    → Reach (round w i o)
unfolding mutex_lock sell count_down
round-Reach child_station i o r at lt free =
    later (later (later r (locks child_station i at lt free)) (sells child_station i refl))
      (counts child_station i refl)
round-Reach main_station i o r at lt free =
    later (later (later r (locks main_station i at lt free)) (sells main_station i refl))
      (counts main_station i refl)

round-free : (w : Who) (i : ℕ) (o : Office) → (round w i o).locked ≡ false
unfolding count_down
round-free child_station i o = refl
round-free main_station i o = refl

round-station : (w : Who) (i : ℕ) (o : Office) → station w (round w i o) ≡ outside (suc i)
unfolding count_down
round-station child_station i o = ap outside (omega arith)
round-station main_station i o = ap outside (omega arith)

child_rounds_lem :
    (n : ℕ)
    → n ≤ 10
    → Reach (child_rounds n)
      × (station child_station (child_rounds n) ≡ outside n)
      × (station main_station (child_rounds n) ≡ outside 0)
      × ((child_rounds n).locked ≡ false)
unfolding mutex_lock sell count_down
child_rounds_lem zero le = (start, refl, refl, refl)
child_rounds_lem (suc n) le =
    let (r, at, other, free) = child_rounds_lem n (omega arith) in
    let o = child_rounds n in
    (
      round-Reach child_station n o r at (omega arith) free,
      round-station child_station n o,
      other,
      refl,
    )

main_rounds_lem :
    (n : ℕ)
    → n ≤ 10
    → Reach (main_rounds n)
      × (station child_station (main_rounds n) ≡ outside 10)
      × (station main_station (main_rounds n) ≡ outside n)
      × ((main_rounds n).locked ≡ false)
unfolding mutex_lock sell count_down
main_rounds_lem zero le = child_rounds_lem 10 (omega arith)
main_rounds_lem (suc n) le =
    let (r, other, at, free) = main_rounds_lem n (omega arith) in
    let o = main_rounds n in
    (
      round-Reach main_station n o r at (omega arith) free,
      other,
      round-station main_station n o,
      refl,
    )
