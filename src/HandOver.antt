-- ===== src/HandOver.antt =====
-- thread/threadsem.c: lines go from `main` to a thread through a buffer and a semaphore.
--
-- The content of `buff` is a number, and `is_end` is the test of `strncmp` for "end". Each access
-- of the buffer is one step, and the threads interleave at every step. `sem_wait` and `sem_post`
-- succeed, as documented for a semaphore that is set up.
pub mod Progress
mod Tests
use os_study_code.Base.{
  ℕ, ◌+◌, ◌-◌, ◌==◌, ◌≡◌, Bool, true, false, Option, none, some, List, [], ◌∷◌, if◌then◌else◌,
}

-- Before `fgets`, before `sem_post`, before `strncmp`, and in `pthread_join`.
pub data Main : Type 0 where
  reading posting testing joining : Main

-- Before `sem_wait`, before `printf`, before `strncmp`, and after the loop.
pub data Reader : Type 0 where
  waiting printing checking done : Reader

pub record HandOver : Type 0 where
  pub buff : ℕ
  pub sem : ℕ
  pub at_main : Main
  pub at_reader : Reader
  pub printed : List ℕ

abbrev pub before : HandOver
before = record { buff = 0; sem = 0; at_main = reading; at_reader = waiting; printed = [] }

module _ (is_end : ℕ → Bool) where
  -- A step of the loop of `main`; `line` is what `fgets` reads, which leaves `buff` at the end of
  -- the input. `none` is a thread that cannot go on.
  unfoldable pub main_from : Main → Option ℕ → HandOver → Option HandOver
  main_from reading none h = some (record h { at_main = posting })
  main_from reading (some l) h = some (record h { buff = l; at_main = posting })
  main_from posting line h = some (record h { sem = h.sem + 1; at_main = testing })
  main_from testing line h =
      some (record h { at_main = if is_end h.buff then joining else reading })
  main_from joining line h = none

  -- A step of `str_thread_handle`.
  unfoldable pub reader_from : Reader → HandOver → Option HandOver
  reader_from waiting h =
      if h.sem == 0 then none else some (record h { sem = h.sem - 1; at_reader = printing })
  reader_from printing h = some (record h { printed = h.buff ∷ h.printed; at_reader = checking })
  reader_from checking h = some (record h { at_reader = if is_end h.buff then done else waiting })
  reader_from done h = none

  abbrev pub main_step : Option ℕ → HandOver → Option HandOver
  main_step line h = main_from h.at_main line h

  abbrev pub reader_step : HandOver → Option HandOver
  reader_step h = reader_from h.at_reader h

  pub data Reach : HandOver → Type 0 where
    start : Reach before
    by_main : {h h' : HandOver} (line : Option ℕ) → Reach h → main_step line h ≡ some h' → Reach h'
    by_reader : {h h' : HandOver} → Reach h → reader_step h ≡ some h' → Reach h'
