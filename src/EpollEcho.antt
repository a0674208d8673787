-- ===== src/EpollEcho.antt =====
-- epoll/epoll_framework/main.c: the handlers of an echo server on Comm.
--
-- Handlers are numbers, and the data of a handler is the address of a connection's `ConnectStat`.
-- `stats` says which of these are allocated, with the string in `send_buf`; `none` as a result is a
-- fault: an access to memory that is not allocated or behind the array, or a failed `assert`. What
-- the calls of the system return is an argument. Where `stat_init` ends
-- without a `return`, its result is an argument too.
pub mod Safety
pub mod Memory
pub mod Handlers
pub mod Reply
pub mod Runs
mod Tests
use mathlib.Core.Option
use os_study_code.Base.{
  ℕ, ◌+◌, Bool, true, false, not, ◌&&◌, Option, none, some, List, [], ◌∷◌, ◌++◌, leb, ltb, ◌==◌,
  zero, suc, drop, if◌then◌else◌, length,
}
use os_study_code.Base.Int.{ℤ, pos, negsuc, pos_part}
use os_study_code.Base.Text.{codes}
use os_study_code.Http.Text.{until_nul, starts_nocase}
use os_study_code.Comm.{
  Comm, comm_init, comm_close, comm_update_read_handler, comm_update_write_handler,
  comm_set_timeout,
}

-- `send_buf` is the string up to its NUL.
pub record ConnectStat : Type 0 where
  pub fd : ℕ
  pub send_buf : List ℕ

pub record Server : Type 0 where
  pub comm : Comm
  pub stats : ℕ → Option ConnectStat
  pub sent : List (ℕ × List ℕ)

-- What a handler gets from the system: `accepted` and `allocated` by accept(2) and malloc(3),
-- `received` by read(2), where `none` is its error, and `written` by write(2).
pub record Answer : Type 0 where
  pub accepted : ℤ
  pub allocated : ℕ
  pub returned : ℕ
  pub received : Option (List ℕ)
  pub written : ℤ

abbrev pub do_welcome : ℕ
do_welcome = 1

abbrev pub do_echo : ℕ
do_echo = 2

abbrev pub do_response : ℕ
do_response = 3

abbrev pub do_timeout : ℕ
do_timeout = 4

abbrev pub do_accept : ℕ
do_accept = 5

abbrev pub buflen : ℕ
buflen = 1024

abbrev pub on_comm : Server → Option Comm → Option Server
on_comm s c = Option.map (λ d. record s { comm = d }) c

abbrev pub store : ℕ → Option ConnectStat → (ℕ → Option ConnectStat) → ℕ → Option ConnectStat
store p v stats q = if p == q then v else stats q

-- `free` of an address that is not allocated is a fault.
unfoldable pub free : ℕ → Server → Option Server
free p s =
    if p == 0
    then some s
    else Option.map (λ x. record s { stats = store p none s.stats }) (s.stats p)

-- `comm_close(fd); free(stat);`
unfoldable pub close_connection : (fd stat : ℕ) → Server → Option Server
unfolding Option.bind free
close_connection fd stat s = Option.bind (on_comm s (comm_close s.comm fd)) (free stat)

unfoldable pub do_echo_timeout : (fd data_ptr : ℕ) → Server → Option Server
unfolding close_connection
do_echo_timeout fd data_ptr s = close_connection fd data_ptr s

-- A handler for reading or writing, and its limit.
unfoldable pub read_next : (fd stat : ℕ) → Server → Option Server
unfolding Option.bind
read_next fd stat s = on_comm s (
    Option.bind (comm_update_read_handler s.comm fd do_echo stat)
      (λ c. comm_set_timeout c fd (pos 10) do_timeout stat))

unfoldable pub write_next : (fd handler stat seconds : ℕ) → Server → Option Server
unfolding Option.bind
write_next fd handler stat seconds s = on_comm s (
    Option.bind (comm_update_write_handler s.comm fd handler stat)
      (λ c. comm_set_timeout c fd (pos seconds) do_timeout stat))

abbrev pub record_write : ℕ → List ℕ → Server → Server
record_write fd bytes s = record s { sent = (fd, bytes) ∷ s.sent }

unfoldable pub do_welcome_handler : (written : ℤ) → (fd data_ptr : ℕ) → Server → Option Server
unfolding read_next
do_welcome_handler written fd data_ptr s =
    let t = record_write fd (codes "Welcome.\n") s in
    if pos_part written == 9 then read_next fd data_ptr t else some t

-- The memory of a `ConnectStat`, with the result of `malloc`.
abbrev pub new_stat : (fd allocated : ℕ) → Server → Server
new_stat fd allocated s =
    if allocated == 0
    then s
    else record s { stats = store allocated (some (record { fd = fd; send_buf = [] })) s.stats }

-- The function ends without a `return` where `malloc` succeeds: its result is then indeterminate, the
-- argument `returned`.
abbrev pub stat_init : (fd allocated returned : ℕ) → Server → ℕ × Server
stat_init fd allocated returned s =
    (if allocated == 0 then 0 else returned, new_stat fd allocated s)

unfoldable pub accept_connection :
    (accepted : ℤ) → (allocated returned : ℕ) → Server → Option Server
unfolding write_next
accept_connection (pos (suc n)) allocated returned s =
    let (stat, t) = stat_init (suc n) allocated returned s in
    write_next (suc n) do_welcome stat 30 t
accept_connection r allocated returned s = some s

-- A change of the `ConnectStat` at an address.
abbrev pub with_stat : ℕ → (ConnectStat → ConnectStat) → Server → Option Server
with_stat stat f s =
    Option.map (λ x. record s { stats = store stat (some (f x)) s.stats }) (s.stats stat)

-- `*p++ = '-'; *p++ = '>';` over a string that is empty or starts so.
abbrev pub start_echo : ConnectStat → ConnectStat
start_echo x = record x { send_buf = codes "->" ++ drop 2 x.send_buf }

-- What was read, with its NUL at `*(p+_s)`, which has to lie inside `send_buf`.
abbrev pub fill : (stat : ℕ) → List ℕ → Server → Option Server
fill stat bytes s =
    if ltb (2 + length bytes) buflen
    then with_stat stat (λ x. record x { send_buf = codes "->" ++ until_nul bytes }) s
    else none

-- `do_echo_handler` after its call of `read`.
unfoldable pub echo_read : (received : Option (List ℕ)) → (fd stat : ℕ) → Server → Option Server
unfolding Option.bind close_connection write_next
echo_read none fd stat s = some s
echo_read (some []) fd stat s = close_connection fd stat s
echo_read (some (b ∷ bs)) fd stat s = Option.bind (fill stat (b ∷ bs) s) (λ t.
    if starts_nocase (until_nul (b ∷ bs)) (codes "quit")
    then close_connection fd stat t
    else write_next fd do_response stat 10 t)

unfoldable pub do_echo_handler :
    (received : Option (List ℕ)) → (fd data_ptr : ℕ) → Server → Option Server
unfolding Option.bind echo_read
do_echo_handler received fd stat s =
    if stat == 0
    then none
    else Option.bind (with_stat stat start_echo s) (echo_read received fd stat)

-- `do_echo_response` after its call of `write`. Its message on an error gives the result, -1, to `%s`,
-- which is a read at an address that is not allocated.
unfoldable pub echo_written : (written : ℤ) → (fd stat : ℕ) → Server → Option Server
unfolding Option.bind close_connection
echo_written (pos zero) fd stat s = close_connection fd stat s
echo_written (pos (suc n)) fd stat s = on_comm s (
    Option.bind (comm_set_timeout s.comm fd (pos 10) do_timeout stat)
      (λ c. comm_update_read_handler c fd do_echo stat))
echo_written (negsuc n) fd stat s = none

unfoldable pub do_echo_response : (written : ℤ) → (fd data_ptr : ℕ) → Server → Option Server
unfolding Option.bind echo_written
do_echo_response written fd stat s =
    Option.bind (s.stats stat) (λ x. echo_written written fd stat (record_write fd x.send_buf s))

-- The call of a handler.
unfoldable pub handle : (handler fd data_ptr : ℕ) → Answer → Server → Option Server
unfolding do_welcome_handler do_echo_handler do_echo_response do_echo_timeout accept_connection
handle handler fd data_ptr a s =
    if handler == do_welcome
    then do_welcome_handler a.written fd data_ptr s
    else if handler == do_echo
    then do_echo_handler a.received fd data_ptr s
    else if handler == do_response
    then do_echo_response a.written fd data_ptr s
    else if handler == do_timeout
    then do_echo_timeout fd data_ptr s
    else accept_connection a.accepted a.allocated a.returned s

abbrev pub nothing : ℕ → Option ConnectStat
nothing p = none

-- `main` up to its loop, with the socket that `startup` returns.
unfoldable pub open_server : (max_fd now listen_sock allocated returned : ℕ) → Option Server
open_server max_fd now listen_sock allocated returned =
    let (stat, s) =
      stat_init listen_sock allocated returned
        (record { comm = comm_init max_fd now; stats = nothing; sent = [] }) in
    on_comm s (comm_update_read_handler s.comm listen_sock do_accept stat)
