-- ===== src/Selects.antt =====
-- mutipleIO/mutipls.c: a server over select(2).
--
-- A set of descriptors is a function; FD_SET of -1 or from FD_SETSIZE on is a fault, `none`.
-- `sockets` has the sockets that are open, and `sent` the calls of `write`, the latest first, with
-- the value of `ch`, which has none when a round begins. What the system answers is an argument.
pub mod Rounds
pub mod Client
mod Tests
use mathlib.Core.Option
use os_study_code.Base.{
  ℕ, zero, suc, ◌+◌, ◌%◌, Bool, true, false, Option, none, some, List, [], ◌∷◌, ltb, ◌==◌,
  if◌then◌else◌,
}
use os_study_code.Base.Int.{ℤ, pos, negsuc}
use os_study_code.Polls.{put}

pub record Selects : Type 0 where
  pub readfds : ℕ → Bool
  pub ch : Option ℕ
  pub sockets : ℕ → Bool
  pub sent : List (ℕ × Option ℕ)

-- For a descriptor: the result of `accept`, the number that FIONREAD gives, and the byte that `read`
-- delivers, if it does.
pub record Answer : Type 0 where
  pub accepted : ℤ
  pub nread : ℕ
  pub received : Option ℕ

abbrev pub fd_setsize : ℕ
fd_setsize = 1024

abbrev pub mark : ℕ → Bool → Selects → Selects
mark fd b s = record s { readfds = put fd b s.readfds; sockets = put fd b s.sockets }

unfoldable pub add_client : ℤ → Selects → Option Selects
add_client (negsuc n) s = none
add_client (pos client_sockfd) s =
    if ltb client_sockfd fd_setsize then some (mark client_sockfd true s) else none

abbrev pub bump : ℕ → ℕ
bump c = (c + 1) % 256

-- `ch` after the call of `read`.
abbrev pub read_into : Option ℕ → Option ℕ → Option ℕ
read_into none ch = ch
read_into (some c) ch = some c

unfoldable pub serve_client : (fd : ℕ) → Answer → Selects → Selects
serve_client fd a s =
    if a.nread == 0
    then mark fd false s
    else (let ch = Option.map bump (read_into a.received s.ch) in
        record s { ch = ch; sent = (fd, ch) ∷ s.sent })

-- The body of the inner loop for a descriptor that is ready.
unfoldable pub visit : (server_sockfd fd : ℕ) → Answer → Selects → Option Selects
unfolding add_client serve_client
visit server_sockfd fd a s =
    if fd == server_sockfd then add_client a.accepted s else some (serve_client fd a s)

-- `for (fd = 0; fd < FD_SETSIZE; fd++)`, where `n` descriptors are left.
unfoldable pub scan :
    (n server_sockfd fd : ℕ) → (ℕ → Bool) → (ℕ → Answer) → Selects → Option Selects
unfolding Option.bind
scan zero server_sockfd fd testfds answers s = some s
scan (suc n) server_sockfd fd testfds answers s =
    let rest = scan n server_sockfd (fd + 1) testfds answers in
    if testfds fd then Option.bind (visit server_sockfd fd (answers fd) s) rest else rest s

-- A round of `while (1)` in which `select` leaves `testfds`.
unfoldable pub round : (server_sockfd : ℕ) → (ℕ → Bool) → (ℕ → Answer) → Selects → Option Selects
round server_sockfd testfds answers s =
    scan fd_setsize server_sockfd 0 testfds answers (record s { ch = none })

abbrev pub empty : Selects
empty = record { readfds = λ d. false; ch = none; sockets = λ d. false; sent = [] }

-- `main` before the loop, with the socket that it opens.
unfoldable pub open_server : (server_sockfd : ℤ) → Option Selects
unfolding add_client
open_server server_sockfd = add_client server_sockfd empty
