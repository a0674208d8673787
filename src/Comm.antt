-- ===== src/Comm.antt =====
-- epoll/epoll_framework/comm.c, comm_epoll.c and globals.h: event handlers on descriptors.
--
-- Descriptors index the tables `fd_table` and `epoll_state`, which are lists; `none` as a result is
-- an index outside a table, which is undefined behaviour in C, or a failed `assert`. A handler is a
-- number other than 0, and what handlers do is the parameter `run`: handler, descriptor, data. Calls
-- of `epoll_ctl` are recorded in `ctls`, the latest first, and calls of `close` in `closed`. Event
-- sets are numbers with the bits of <sys/epoll.h>. The fields of `fde` for addresses, which nothing
-- here uses, are left out.
pub mod Interest
pub mod Handlers
pub mod Updates
pub mod Timeouts
pub mod Select
pub mod Clock
pub mod Calls
mod Tests
use mathlib.Core.Option
use os_study_code.Base.{
  ℕ, zero, suc, ◌+◌, ◌-◌, ◌*◌, ◌/◌, ◌%◌, Bool, true, false, not, ◌&&◌, ◌||◌, Option, none, some,
  List, [], ◌∷◌, ltb, leb, ◌==◌, if◌then◌else◌, get_elem?, set, replicate,
}
use os_study_code.Base.Int.{ℤ, pos, negsuc, ◌+ℤ◌, ◌-ℤ◌}

pub record Fde : Type 0 where
  pub read_handler : ℕ
  pub read_data : ℕ
  pub write_handler : ℕ
  pub write_data : ℕ
  pub timeout_handler : ℕ
  pub timeout : ℕ
  pub timeout_data : ℕ

pub data Ctl : Type 0 where
  ctl_add : (fd events : ℕ) → Ctl
  ctl_mod : (fd events : ℕ) → Ctl
  ctl_del : (fd : ℕ) → Ctl

pub record Comm : Type 0 where
  pub biggest_fd : ℕ
  pub fd_table : List Fde
  pub epoll_state : List ℕ
  pub epoll_fds : ℤ
  pub curtime : ℕ
  pub ctls : List Ctl
  pub closed : List ℕ

abbrev pub blank : Fde
blank = record {
  read_handler = 0;
  read_data = 0;
  write_handler = 0;
  write_data = 0;
  timeout_handler = 0;
  timeout = 0;
  timeout_data = 0;
}

-- `comm_init`, with `do_epoll_init`, where `calloc` and `epoll_create` succeed; `Biggest_FD` is 1024
-- before.
unfoldable pub comm_init : (max_fd curtime : ℕ) → Comm
comm_init max_fd curtime =
    let size = if ltb 0 max_fd then max_fd else 1024 in
    record {
      biggest_fd = size;
      fd_table = replicate size blank;
      epoll_state = replicate size 0;
      epoll_fds = pos 0;
      curtime = curtime;
      ctls = [];
      closed = [];
    }

-- EPOLLIN is 1, EPOLLOUT 4, EPOLLERR 8 and EPOLLHUP 16.
abbrev pub events_of : (need_read need_write : Bool) → ℕ
events_of need_read need_write =
    let wanted = (if need_read then 1 else 0) + (if need_write then 4 else 0) in
    if wanted == 0 then 0 else wanted + 24

-- The call of `epoll_ctl` for a new set of events.
abbrev pub ctl_of : (fd events old : ℕ) → Ctl
ctl_of fd events old =
    if events == 0 then ctl_del fd else if old == 0 then ctl_add fd events else ctl_mod fd events

abbrev pub fds_after : (events old : ℕ) → ℤ → ℤ
fds_after events old fds =
    if events == 0 then fds -ℤ pos 1 else if old == 0 then fds +ℤ pos 1 else fds

unfoldable pub epoll_set_events : Comm → ℕ → (need_read need_write : Bool) → Option Comm
epoll_set_events c fd need_read need_write =
    Option.map
      (λ old.
        let events = events_of need_read need_write in
        if events == old then c else record c {
          epoll_state = set c.epoll_state fd events;
          ctls = ctl_of fd events old ∷ c.ctls;
          epoll_fds = fds_after events old c.epoll_fds;
        })
      (get_elem? c.epoll_state fd)

-- A write to the table, which faults outside it.
unfoldable pub with_fde : Comm → ℕ → (Fde → Fde) → Option Comm
with_fde c fd f =
    Option.map (λ e. record c { fd_table = set c.fd_table fd (f e) }) (get_elem? c.fd_table fd)

abbrev pub record_close : ℕ → Comm → Comm
record_close fd d = record d { closed = fd ∷ d.closed }

unfoldable pub comm_close : Comm → ℕ → Option Comm
unfolding Option.bind
comm_close c fd =
    if fd == 0
    then none
    else Option.bind (with_fde c fd (λ _. blank))
        (λ c'. Option.map (record_close fd) (epoll_set_events c' fd false false))

unfoldable pub comm_update_read_handler : Comm → (fd handler data_ptr : ℕ) → Option Comm
unfolding Option.bind
comm_update_read_handler c fd handler data_ptr =
    Option.bind (with_fde c fd (λ e. record e { read_handler = handler; read_data = data_ptr }))
      (λ d. epoll_set_events d fd true false)

unfoldable pub comm_update_write_handler : Comm → (fd handler data_ptr : ℕ) → Option Comm
unfolding Option.bind
comm_update_write_handler c fd handler data_ptr =
    Option.bind (with_fde c fd (λ e. record e { write_handler = handler; write_data = data_ptr }))
      (λ d. epoll_set_events d fd false true)

-- The new entry of `commSetTimeout`; `none` is the failed `assert` on the handlers.
unfoldable pub timed : (curtime : ℕ) → (timeout : ℤ) → (handler data_ptr : ℕ) → Fde → Option Fde
timed curtime (negsuc n) handler data_ptr e =
    some (record e { timeout_handler = 0; timeout_data = 0; timeout = 0 })
timed curtime (pos n) handler data_ptr e =
    if handler == 0 && e.timeout_handler == 0
    then none
    else if handler == 0 && data_ptr == 0
    then some (record e { timeout = curtime + n })
    else some
        (record e { timeout_handler = handler; timeout_data = data_ptr; timeout = curtime + n })

unfoldable pub comm_set_timeout : Comm → ℕ → ℤ → (handler data_ptr : ℕ) → Option Comm
unfolding Option.bind timed
comm_set_timeout c fd timeout handler data_ptr =
    if leb c.biggest_fd fd
    then none
    else Option.bind (get_elem? c.fd_table fd) (λ e.
      Option.map (λ e'. record c { fd_table = set c.fd_table fd e' })
        (timed c.curtime timeout handler data_ptr e))

abbrev pub clear_out : ℕ → ℕ
clear_out events = events - events / 4 % 2 * 4

abbrev pub clear_in : ℕ → ℕ
clear_in events = events - events % 2

pub data Wait : Type 0 where
  failed : (errno now : ℕ) → Wait
  ready : List (ℕ × ℕ) → Wait

pub data Outcome : Type 0 where
  comm_ok comm_error comm_timeout : Outcome

-- EINTR, EAGAIN (which is EWOULDBLOCK), ERESTART, EALREADY and EINPROGRESS.
unfoldable pub ignore_errno : ℕ → Bool
ignore_errno e = e == 4 || e == 11 || e == 85 || e == 114 || e == 115

module _ (run : ℕ → ℕ → ℕ → Comm → Option Comm) where
  -- Calls a handler that is not NULL, if there is an event for it.
  abbrev pub fire : (handler data_ptr event fd : ℕ) → Comm → Option Comm
  fire handler data_ptr event fd c =
      if handler == 0 || event == 0 then some c else run handler fd data_ptr c

  unfoldable pub comm_call_handlers : Comm → (fd read_event write_event : ℕ) → Option Comm
  unfolding Option.bind
  comm_call_handlers c fd read_event write_event = Option.bind (get_elem? c.fd_table fd) (λ e.
      Option.bind (fire e.read_handler e.read_data read_event fd c) (λ d.
        Option.bind (get_elem? d.fd_table fd)
          (λ f. fire f.write_handler f.write_data write_event fd d)))

  -- The body of the loop of `checkTimeouts`.
  unfoldable pub check_fd : Comm → ℕ → Option Comm
  unfolding Option.bind
  check_fd c fd = Option.bind (get_elem? c.fd_table fd) (λ e.
      if e.timeout == 0 || ltb c.curtime e.timeout
      then some c
      else if e.timeout_handler == 0
      then comm_close c fd
      else Option.bind (with_fde c fd (λ f. record f { timeout_handler = 0 }))
          (run e.timeout_handler fd e.timeout_data))

  unfoldable pub check_from : (rounds fd : ℕ) → Comm → Option Comm
  unfolding Option.bind
  check_from zero fd c = some c
  check_from (suc rounds) fd c = Option.bind (check_fd c fd) (check_from rounds (fd + 1))

  -- `for (fd = 0; fd <= Biggest_FD; fd++)`
  unfoldable pub check_timeouts : Comm → Option Comm
  check_timeouts c = check_from (c.biggest_fd + 1) 0 c

  unfoldable pub dispatch : List (ℕ × ℕ) → Comm → Option Comm
  unfolding Option.bind
  dispatch [] c = some c
  dispatch ((fd, events) ∷ es) c =
      Option.bind (comm_call_handlers c fd (clear_out events) (clear_in events)) (dispatch es)

  -- What `epoll_wait` returns is an argument: the ready descriptors with their events, or an error
  -- and the time that `getCurrentTime` then reads.
  unfoldable pub do_epoll_select : Wait → Comm → Option (Outcome × Comm)
  do_epoll_select (failed errno now) c =
      some (if ignore_errno errno then comm_ok else comm_error, record c { curtime = now })
  do_epoll_select (ready []) c = some (comm_timeout, c)
  do_epoll_select (ready (e ∷ es)) c = Option.map (λ d. (comm_ok, d)) (dispatch (e ∷ es) c)
