-- ===== src/Comm/Select.antt =====
-- `comm_select`, with its clock.
--
-- `current_dtime` and `last_timeout` are doubles in seconds; here they are whole microseconds, and
-- their arithmetic is exact. Both are 0 until `getCurrentTime` is called. What `epoll_wait` returns
-- for a time limit and the microseconds that `gettimeofday` reads after it are arguments.
use mathlib.Core.Option
use os_study_code.Base.{ℕ, ◌+◌, ◌-◌, ◌/◌, Bool, Option, ltb, if◌then◌else◌}
use os_study_code.Base.Int.{ℤ, pos, ltb_ℤ}
use os_study_code.Comm.{Comm, Wait, Outcome, comm_init, check_timeouts, do_epoll_select}

pub record Loop : Type 0 where
  pub comm : Comm
  pub current_dtime : ℕ
  pub last_timeout : ℕ

abbrev pub max_poll_time : ℤ
max_poll_time = pos 1000

abbrev pub is_due : Loop → Bool
is_due l = ltb (l.last_timeout + 999_000) l.current_dtime

abbrev pub at_most : ℤ → ℤ → ℤ
at_most most msec = if ltb_ℤ most msec then most else msec

-- `(last_timeout + 1.0 - current_dtime) * 1000`
abbrev pub max_timeout : Loop → ℤ
max_timeout l = pos ((l.last_timeout + 1_000_000 - l.current_dtime) / 1000)

-- `comm_init` before the clock is read.
unfoldable pub open_loop : ℕ → Loop
open_loop max_fd = record { comm = comm_init max_fd 0; current_dtime = 0; last_timeout = 0 }

-- `getCurrentTime`
abbrev pub get_current_time : ℕ → Outcome × Comm → Loop → Outcome × Loop
get_current_time now (rc, c) l =
    (rc, record l { comm = record c { curtime = now / 1_000_000 }; current_dtime = now })

module _ (run : ℕ → ℕ → ℕ → Comm → Option Comm) where
  -- From the call of `do_epoll_select` on.
  abbrev pub select_from : (wait : ℤ → Wait) → (now : ℕ) → ℤ → Loop → Option (Outcome × Loop)
  select_from wait now msec l =
      Option.map (λ r. get_current_time now r l) (do_epoll_select run (wait msec) l.comm)

  unfoldable pub comm_select :
      (wait : ℤ → Wait) → (now : ℕ) → (msec : ℤ) → Loop → Option (Outcome × Loop)
  unfolding Option.bind
  comm_select wait now msec l =
      let msec' = at_most max_poll_time msec in
      if is_due l
      then Option.bind (check_timeouts run l.comm)
          (λ c. select_from wait now msec' (record l { comm = c; last_timeout = l.current_dtime }))
      else select_from wait now (at_most (max_timeout l) msec') l
