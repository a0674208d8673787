-- ===== src/Typing/Tests.antt =====
-- The thread reports before the line "hi" is read, and clears the buffer after.
use os_study_code.Base.{ℕ, ◌≡◌, refl, List, [], ◌∷◌, ◌++◌}
use os_study_code.Base.Text.{codes}
use os_study_code.Typing.{
  Desk, opening, fetch, report, clear, Reach, start, later, tests_more, reports, clears, goes_on,
  fetches, reporting, fetching,
}
use os_study_code.Typing.Lines.{Beginning, extra, missed, outstanding}
use os_study_code.Typing.Taken.{Reach-taken}

abbrev hi : List ℕ
hi = codes "hi\n"

abbrev tested : Desk
tested = record (opening (hi ∷ [])) { at_thread = reporting }

abbrev late : Desk
late = clear (fetch hi [] (record (report tested) { at_main = fetching }))

late-Reach : Reach (hi ∷ []) late
unfolding clear
late-Reach =
    later
      (later (later (later (later start (tests_more refl refl)) (reports refl)) (goes_on refl refl))
        (fetches hi [] refl refl (λ e. cc)))
      (clears refl)

Reach-taken_example :
    (b : Beginning) × (rest : List (List ℕ)) × (late.taken
        ++ outstanding late.at_thread late.work_area
      ≡ extra b ++ rest)
    × (late.reads ≡ missed b ++ rest)
    × (late.reads ++ late.typed ≡ hi ∷ [])
Reach-taken_example = Reach-taken (hi ∷ []) late late-Reach
