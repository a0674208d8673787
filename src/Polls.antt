-- ===== src/Polls.antt =====
-- mutipleIO/polls.c: a server over poll(2).
--
-- `fds` is the table, of which the entries from MAX_FD on do not exist: an access to them, or to the
-- entry -1, is a fault, `none`. `sockets` has the sockets that are open, and `sent` the calls of
-- `write`, the latest first. `ch` is the variable in the body of the outer loop, with the
-- descriptor from which it was read; it has no value when a round begins. What the system answers
-- is an argument.
pub mod Table
pub mod Rounds
mod Tests
use mathlib.Core.Option
use os_study_code.Base.{
  ℕ, zero, suc, ◌+◌, ◌/◌, ◌%◌, Bool, true, false, Option, none, some, List, [], ◌∷◌, ltb, leb, ◌==◌,
  if◌then◌else◌,
}
use os_study_code.Base.Int.{ℤ, pos, negsuc}

pub record PollFd : Type 0 where
  pub fd : ℕ
  pub events : ℕ
  pub revents : ℕ

-- A byte, and where it came from.
pub record Char : Type 0 where
  pub from : ℕ
  pub value : ℕ

pub record Polls : Type 0 where
  pub fds : ℕ → PollFd
  pub cur_max_fd : ℕ
  pub ch : Option Char
  pub sockets : ℕ → Bool
  pub sent : List (ℕ × Option Char)

-- What `accept` and `read` return at an entry: the result of `read` is an error, `none`, or what
-- there is of the one byte that is asked for.
pub record Answer : Type 0 where
  pub accepted : ℤ
  pub received : Option (Option ℕ)

abbrev pub max_fd : ℕ
max_fd = 8192

abbrev pub blank : PollFd
blank = record { fd = 0; events = 0; revents = 0 }

abbrev pub put {ℓ} : {A : Type ℓ} → ℕ → A → (ℕ → A) → ℕ → A
put i v f j = if i == j then v else f j

-- POLLIN is 1, POLLOUT 4.
abbrev pub has_in : ℕ → Bool
has_in revents = revents % 2 == 1

abbrev pub has_out : ℕ → Bool
has_out revents = revents / 4 % 2 == 1

abbrev pub grown : (cur_max_fd fd : ℕ) → ℕ
grown cur_max_fd fd = if leb cur_max_fd fd then fd + 1 else cur_max_fd

-- A new entry for a socket.
abbrev pub watch : ℕ → Polls → Polls
watch fd s = record s {
  fds = put fd (record { fd = fd; events = 1; revents = 0 }) s.fds;
  cur_max_fd = grown s.cur_max_fd fd;
  sockets = put fd true s.sockets;
}

unfoldable pub add_client : ℤ → Polls → Option Polls
add_client (negsuc n) s = none
add_client (pos client_sockfd) s =
    if ltb client_sockfd max_fd then some (watch client_sockfd s) else none

abbrev pub with_events : ℕ → ℕ → Polls → Polls
with_events i events s = record s { fds = put i (record (s.fds i) { events = events }) s.fds }

-- `ch++` wraps.
abbrev pub bump : Char → Char
bump c = record c { value = (c.value + 1) % 256 }

unfoldable pub read_client : (i : ℕ) → Option (Option ℕ) → Polls → Polls
read_client i (some none) s = record s {
  sockets = put (s.fds i).fd false s.sockets;
  fds = put i blank s.fds;
}
read_client i (some (some c)) s =
    with_events i 4 (record s { ch = some (bump (record { from = (s.fds i).fd; value = c })) })
read_client i none s = with_events i 4 (record s { ch = Option.map bump s.ch })

unfoldable pub write_client : (i : ℕ) → Polls → Polls
write_client i s = with_events i 1 (record s { sent = ((s.fds i).fd, s.ch) ∷ s.sent })

-- The body of the inner loop.
unfoldable pub visit : (server_sockfd i : ℕ) → Answer → Polls → Option Polls
unfolding add_client read_client write_client
visit server_sockfd i a s =
    let e = s.fds i in
    if e.revents == 0
    then some s
    else if e.fd == server_sockfd
    then add_client a.accepted s
    else if has_in e.revents
    then some (read_client i a.received s)
    else if has_out e.revents
    then some (write_client i s)
    else some s

-- `for (i = 0; i < cur_max_fd; i++)`, where `cur_max_fd` may grow; `none` is also the end of the fuel.
unfoldable pub scan : (fuel server_sockfd i : ℕ) → (ℕ → Answer) → Polls → Option Polls
unfolding Option.bind
scan zero server_sockfd i answers s = if ltb i s.cur_max_fd then none else some s
scan (suc fuel) server_sockfd i answers s =
    let rest = scan fuel server_sockfd (i + 1) answers in
    if ltb i s.cur_max_fd then Option.bind (visit server_sockfd i (answers i) s) rest else some s

-- What `poll` leaves in the table.
abbrev pub polled : (ℕ → ℕ) → Polls → Polls
polled revents s = record s {
  fds = λ i. if ltb i s.cur_max_fd then record (s.fds i) { revents = revents i } else s.fds i;
  ch = none;
}

-- A round of `while (1)` in which `poll` does not fail.
unfoldable pub round : (server_sockfd : ℕ) → (ℕ → ℕ) → (ℕ → Answer) → Polls → Option Polls
round server_sockfd revents answers s = scan (max_fd + 1) server_sockfd 0 answers (polled revents s)

abbrev pub empty : Polls
empty = record { fds = λ i. blank; cur_max_fd = 10; ch = none; sockets = λ i. false; sent = [] }

-- `main` before the loop, with the socket that it opens.
unfoldable pub open_server : (server_sockfd : ℤ) → Option Polls
unfolding add_client
open_server server_sockfd = add_client server_sockfd empty
