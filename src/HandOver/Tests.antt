-- ===== src/HandOver/Tests.antt =====
-- The hand-over at concrete states.
use os_study_code.Base.{ℕ, ◌≡◌, ◌⊎◌, refl, Bool, some, ◌==◌}
use os_study_code.HandOver.{
  joining, done, HandOver, main_from, main_step, reader_step, Reach, start, by_main,
}
use os_study_code.HandOver.Progress.{Reach-joining}

-- The line 7 is the last.
abbrev seven : ℕ → Bool
seven b = b == 7

one_line : (h : HandOver) × Reach seven h
unfolding main_from
one_line = (_, by_main (some 3) start refl)

Reach-joining_example :
    ((h' : HandOver) × ((main_step seven (some 7) one_line.0 ≡ some h')
        ⊎ (reader_step seven one_line.0 ≡ some h')))
    ⊎ ((one_line.0.at_main ≡ joining) × (one_line.0.at_reader ≡ done))
Reach-joining_example = Reach-joining seven (some 7) one_line.1
