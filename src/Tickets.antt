-- ===== src/Tickets.antt =====
-- thread/mutex.c: two threads that sell tickets from one counter under a mutex.
--
-- A station is a thread: `str_thread_handle` is the child, the loop of `main` the other. Each round
-- of a loop is three steps, and the threads interleave at every step. `sold` records the tickets
-- that are printed, the latest first.
pub mod Sales
mod Tests
use os_study_code.Base.{ℕ, ◌+◌, ◌<◌, ◌≡◌, Bool, true, false, List, [], ◌∷◌, if◌then◌else◌}
use os_study_code.Base.Int.{ℤ, pos, ◌-ℤ◌, ltb_ℤ}

pub data Who : Type 0 where
  child_station main_station : Who

-- In round `i`, counted from 0: before the mutex, after `pthread_mutex_lock`, and before
-- `global_value--`.
pub data Station : Type 0 where
  outside : (i : ℕ) → Station
  selling : (i : ℕ) → Station
  counting : (i : ℕ) → Station

pub record Office : Type 0 where
  pub global_value : ℤ
  pub locked : Bool
  pub at_child : Station
  pub at_main : Station
  pub sold : List ℤ

abbrev pub rounds_each : ℕ
rounds_each = 10

abbrev pub opening : Office
opening = record {
  global_value = pos 1000;
  locked = false;
  at_child = outside 0;
  at_main = outside 0;
  sold = [];
}

abbrev pub station : Who → Office → Station
station child_station o = o.at_child
station main_station o = o.at_main

abbrev pub put : Who → Station → Office → Office
put child_station s o = record o { at_child = s }
put main_station s o = record o { at_main = s }

unfoldable pub mutex_lock : Who → ℕ → Office → Office
mutex_lock w i o = put w (selling i) (record o { locked = true })

unfoldable pub sell : Who → ℕ → Office → Office
sell w i o =
    put w (counting i)
      (record o { sold = if ltb_ℤ (pos 0) o.global_value then o.global_value ∷ o.sold else o.sold })

unfoldable pub count_down : Who → ℕ → Office → Office
count_down w i o =
    put w (outside (i + 1)) (record o { global_value = o.global_value -ℤ pos 1; locked = false })

pub data Step (o : Office) : Office → Type 0 where
  locks :
      (w : Who) (i : ℕ)
      → station w o ≡ outside i
      → i < rounds_each
      → o.locked ≡ false
      → Step o (mutex_lock w i o)
  sells : (w : Who) (i : ℕ) → station w o ≡ selling i → Step o (sell w i o)
  counts : (w : Who) (i : ℕ) → station w o ≡ counting i → Step o (count_down w i o)

pub data Reach : Office → Type 0 where
  start : Reach opening
  later : {o o' : Office} → Reach o → Step o o' → Reach o'
