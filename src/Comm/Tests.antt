-- ===== src/Comm/Tests.antt =====
-- The event loop at concrete states.
use mathlib.Core.Option
use os_study_code.Base.Int.{ℤ, pos}
use os_study_code.Base.{
  ltb, ℕ, ◌+◌, ◌≡◌, refl, sym, ap, eq_of_some, inl, inr, true, Bool-cases, Option, none, some, [],
  ◌∷◌, arith, ◌==◌, if◌then◌else◌,
}
use os_study_code.Comm.{
  Fde, Comm, blank, comm_init, events_of, epoll_set_events, comm_close, comm_set_timeout, check_fd,
  with_fde, ready, do_epoll_select,
}
use os_study_code.Comm.{Wait, Outcome, comm_timeout}
use os_study_code.Comm.Select.{Loop, open_loop, comm_select}
use os_study_code.Comm.Calls.{do_epoll_select-called, selected}
use os_study_code.Comm.Clock.{Selected, Timely, comm_select-Selected, comm_select-twice}
use os_study_code.Comm.Interest.{Mirror}
use os_study_code.Comm.Updates.{
  Watching, epoll_set_events-Watching, Closed, comm_close-Closed, comm_init-Mirror,
}
use os_study_code.Comm.Handlers.{Keeps}
use os_study_code.Comm.Timeouts.{comm_set_timeout-check_fd}

-- Four descriptors at time 100.
abbrev empty : Comm
empty = comm_init 4 100

empty-Mirror : Mirror empty
empty-Mirror = (comm_init-Mirror 4 100).0

epoll_set_events-Watching_example :
    (d : Comm) × (epoll_set_events empty 3 true true ≡ some d)
    × Watching empty 3 (events_of true true) d
    × (d.fd_table ≡ empty.fd_table)
unfolding comm_init
epoll_set_events-Watching_example =
    epoll_set_events-Watching empty 3 true true empty-Mirror (omega arith)

comm_close-Closed_example : (d : Comm) × (comm_close empty 3 ≡ some d) × Closed empty 3 d
unfolding comm_init
comm_close-Closed_example = comm_close-Closed empty 3 empty-Mirror (omega arith) (omega arith)

-- Every handler closes its descriptor.
abbrev closing : ℕ → ℕ → ℕ → Comm → Option Comm
closing handler fd data_ptr c = if fd == 0 then some c else comm_close c fd

closing-Keeps : Keeps closing
closing-Keeps h fd p c m lt = elim (Bool-cases (fd == 0)) [
  | inl null ↦ (c, rw null refl, m, refl)
  | inr real ↦
      let (d, eq, w) = comm_close-Closed c fd m (ground arith) lt in
      (d, rw real eq, w.mirror, w.same_size)
]

abbrev handled : Fde
handled = record blank { read_handler = 7; read_data = 8 }

-- Descriptor 3 has a read handler.
abbrev one_handler : Comm
one_handler = record empty { fd_table = blank ∷ blank ∷ blank ∷ handled ∷ [] }

one_handler-Mirror : Mirror one_handler
unfolding comm_init
one_handler-Mirror = record {
  same = empty-Mirror.same;
  accepts = empty-Mirror.accepts;
  counted = empty-Mirror.counted;
  tables = (refl, refl);
}

comm_set_timeout-check_fd_example :
    (d : Comm) × (comm_set_timeout empty 3 (pos 5) 7 8 ≡ some d)
    × Mirror d
    × (check_fd closing (record d { curtime = 110 }) 3 ≡ (
        if ltb 110 105
        then some (record d { curtime = 110 })
        else Option.bind
            (with_fde (record d { curtime = 110 }) 3 (λ f. record f { timeout_handler = 0 }))
            (closing 7 3 8)))
unfolding comm_init
comm_set_timeout-check_fd_example =
    comm_set_timeout-check_fd closing empty 3 5 7 8 110 empty-Mirror (omega arith) (omega arith)
      (omega arith)

-- Nothing happens for a second.
abbrev quiet : ℤ → Wait
quiet msec = ready []

comm_select-Selected_example :
    (k : Loop) × (comm_select closing quiet 1_000_000 (pos 1000) (open_loop 4)
      ≡ some (comm_timeout, k))
    × Selected (pos 1000) 1_000_000 (open_loop 4) k
    × Timely (pos 1000) (open_loop 4)
unfolding open_loop comm_init
comm_select-Selected_example =
    comm_select-Selected closing quiet 1_000_000 1000 (open_loop 4) closing-Keeps
      (comm_init-Mirror 4 0).0 tt (omega arith)

comm_select-twice_example :
    (rc : Outcome) × (k : Loop) × (comm_select closing quiet 1_000_000 (pos 1000) (open_loop 4)
      ≡ some (rc, k))
    × (comm_select closing quiet 2_000_000 (pos 1000) k ≡ none)
comm_select-twice_example =
    comm_select-twice closing 4 1_000_000 2_000_000 quiet quiet (pos 1000) (pos 1000) closing-Keeps
      tt (omega arith)

-- Each handler makes it a second later.
abbrev ticking : ℕ → ℕ → ℕ → Comm → Option Comm
ticking h fd p c = some (record c { curtime = c.curtime + 1 })

abbrev both_handlers : Comm
both_handlers = record (comm_init 2 0) {
  fd_table = blank ∷ record blank { read_handler = 3; read_data = 5; write_handler = 4 } ∷ [];
}

-- Descriptor 1 has EPOLLIN, then EPOLLHUP.
do_epoll_select-called_example :
    do_epoll_select ticking (ready ((1, 1) ∷ (1, 16) ∷ [])) both_handlers
    ≡ selected ticking (ready ((1, 1) ∷ (1, 16) ∷ [])) both_handlers
do_epoll_select-called_example =
    do_epoll_select-called ticking (ready ((1, 1) ∷ (1, 16) ∷ [])) both_handlers
      (λ h fd p c d e. ap (λ x. x.fd_table) (sym (eq_of_some e))) (omega arith, (omega arith, tt))
