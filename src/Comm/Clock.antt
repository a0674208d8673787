-- ===== src/Comm/Clock.antt =====
-- The loop over `comm_select`.

use os_study_code.Base.{
  ℕ, ◌+◌, ◌-◌, ◌*◌, ◌/◌, ◌≤◌, ◌<◌, ◌≡◌, refl, ap, ◌∙◌, inl, inr, true, false, Option, some, none,
  arith, Bool-cases,
}
use os_study_code.Base.Int.{ℤ, pos, ltb_ℤ, ◌≤ℤ◌}
use os_study_code.Comm.{Comm, Wait, Outcome, comm_init}
use os_study_code.Comm.Interest.{Mirror}
use os_study_code.Comm.Updates.{comm_init-Mirror}
use os_study_code.Comm.Handlers.{Keeps, WaitInRange, outcome_of, do_epoll_select-Mirror}
use os_study_code.Comm.Timeouts.{check_timeouts-none}
use os_study_code.Comm.Select.{
  Loop, max_poll_time, is_due, at_most, max_timeout, open_loop, comm_select,
}

-- The limit that `comm_select` gives to `epoll_wait` between two checks.
abbrev pub limit : ℤ → Loop → ℤ
limit msec l = at_most (max_timeout l) (at_most max_poll_time msec)

pub record Selected (msec : ℤ) (now : ℕ) (l : Loop) (k : Loop) : Type 0 where
  pub mirror : Mirror k.comm
  pub same_size : k.comm.biggest_fd ≡ l.comm.biggest_fd
  pub clock : (k.current_dtime ≡ now) × (k.comm.curtime ≡ now / 1_000_000)
  pub same_check : k.last_timeout ≡ l.last_timeout
  pub asked : limit msec l ≤ℤ msec

-- `epoll_wait` gets a limit that is not negative, and ends within a second of the last check.
pub record Timely (msec : ℤ) (l : Loop) : Type 0 where
  pub most : ℕ
  pub given : limit msec l ≡ pos most
  pub in_time : most * 1000 + l.current_dtime ≤ l.last_timeout + 1_000_000

at_most-le : (most msec : ℤ) → (at_most most msec ≤ℤ msec) × (at_most most msec ≤ℤ most)
at_most-le most msec = elim (Bool-cases (ltb_ℤ most msec)) [
  | inl more ↦ rw more (ground arith, omega arith)
  | inr fine ↦ rw fine (omega arith, ground arith)
]

at_most-pos : (most msec : ℕ) → (k : ℕ) × (at_most (pos most) (pos msec) ≡ pos k) × (k ≤ most)
at_most-pos most msec = elim (Bool-cases (ltb_ℤ (pos most) (pos msec))) [
  | inl more ↦ rw more (most, refl, omega arith)
  | inr fine ↦ rw fine (msec, refl, ground arith)
]

limit-Timely :
    (msec : ℕ) (l : Loop) → l.current_dtime ≤ l.last_timeout + 999_000 → Timely (pos msec) l
limit-Timely msec l early =
    let (a, inner, le) = at_most-pos 1000 msec in
    let (b, outer, small) = at_most-pos ((l.last_timeout + 1_000_000 - l.current_dtime) / 1000) a in
    record {
      most = b;
      given = ap (at_most (max_timeout l)) inner ∙ outer;
      in_time = omega (arith, small, early);
    }

module _ (run : ℕ → ℕ → ℕ → Comm → Option Comm) where
  -- The call without a check of the timeouts.
  pub comm_select-quiet :
      (wait : ℤ → Wait) (now : ℕ) (msec : ℤ) (l : Loop)
      → Keeps run
      → Mirror l.comm
      → WaitInRange run l.comm.biggest_fd (wait (limit msec l))
      → l.current_dtime ≤ l.last_timeout + 999_000
      → (k : Loop) × (comm_select run wait now msec l
          ≡ some (outcome_of run (wait (limit msec l)), k))
        × Selected msec now l k
  unfolding comm_select
  comm_select-quiet wait now msec l keeps m within early =
      let (d, eq, m', same) =
        do_epoll_select-Mirror run keeps (wait (limit msec l)) l.comm m within in
      let not_due : is_due l ≡ false = ground arith in
      let inner = at_most-le max_poll_time msec in
      let outer = at_most-le (max_timeout l) (at_most max_poll_time msec) in
      (
        record l { comm = record d { curtime = now / 1_000_000 }; current_dtime = now },
        rw not_due (rw eq refl),
        record {
          mirror = record {
            same = m'.same;
            accepts = m'.accepts;
            counted = m'.counted;
            tables = m'.tables;
          };
          same_size = same;
          clock = (refl, refl);
          same_check = refl;
          asked = omega (arith, inner.0, outer.0);
        },
      )

  -- On a consistent state, with handlers that run without a fault and keep it consistent,
  -- descriptors of the table from epoll_wait, and at most 0.999 seconds since the last check of
  -- the timeouts: comm_select ends without a fault with the answer of do_epoll_select, keeps the
  -- state consistent, sets both clocks, and, asked for a time that is not negative, gives
  -- epoll_wait a limit that is not negative either, at most that time, and at most what is left
  -- until one second after that check.
  pub comm_select-Selected :
      (wait : ℤ → Wait) (now : ℕ) (msec : ℕ) (l : Loop)
      → Keeps run
      → Mirror l.comm
      → WaitInRange run l.comm.biggest_fd (wait (limit (pos msec) l))
      → l.current_dtime ≤ l.last_timeout + 999_000
      → (k : Loop) × (comm_select run wait now (pos msec) l
          ≡ some (outcome_of run (wait (limit (pos msec) l)), k))
        × Selected (pos msec) now l k
        × Timely (pos msec) l
  comm_select-Selected wait now msec l keeps m within early =
      let (k, eq, s) = comm_select-quiet wait now (pos msec) l keeps m within early in
      (k, eq, s, limit-Timely msec l early)

  -- A round of checks.
  comm_select-due :
      (wait : ℤ → Wait) (now : ℕ) (msec : ℤ) (l : Loop)
      → Keeps run
      → Mirror l.comm
      → is_due l ≡ true
      → comm_select run wait now msec l ≡ none
  unfolding comm_select
  comm_select-due wait now msec l keeps m due =
      rw due (rw (check_timeouts-none run keeps l.comm m) refl)

  -- With handlers that run without a fault and keep the tables consistent: after comm_init a
  -- first comm_select ends without a fault, and if the clock then shows more than 0.999 seconds,
  -- the second one does not, since its check of the timeouts reads behind the table.
  pub comm_select-twice :
      (max_fd now now' : ℕ) (wait wait' : ℤ → Wait) (msec msec' : ℤ)
      → Keeps run
      → WaitInRange run (comm_init max_fd 0).biggest_fd (wait (limit msec (open_loop max_fd)))
      → 999_000 < now
      → (rc : Outcome) × (k : Loop) × (comm_select run wait now msec (open_loop max_fd)
          ≡ some (rc, k))
        × (comm_select run wait' now' msec' k ≡ none)
  unfolding open_loop
  comm_select-twice max_fd now now' wait wait' msec msec' keeps within late =
      let l = open_loop max_fd in
      let (k, eq, s) =
        comm_select-quiet wait now msec l keeps (comm_init-Mirror max_fd 0).0 within
          (omega arith) in
      let due : is_due k ≡ true = let a = s.same_check in let b = s.clock.0 in ground arith in
      (
        outcome_of run (wait (limit msec l)),
        k,
        eq,
        comm_select-due wait' now' msec' k keeps s.mirror due,
      )
