-- ===== src/EventEcho.antt =====
-- libevent/server.c and libevent/client.c: an echo server and its client, as callbacks of libevent.
--
-- What libevent delivers is an argument: `received` are the bytes that `bufferevent_read` puts into
-- the buffer, at most as many as asked for. The server's callback gives what it hands to
-- `bufferevent_write`, or `none` for a store outside the buffer. The client's callbacks are programs
-- of Sys; the text around a message that is printed is left out.
pub mod Lines
mod Tests
use os_study_code.Base.{
  ℕ, ◌+◌, Bool, Option, none, some, List, [], ◌∷◌, length, ltb, ◌==◌, if◌then◌else◌, not,
}
use os_study_code.Base.Int.{ℤ, pos, negsuc}
use os_study_code.Http.Text.{until_nul}
use os_study_code.Sys.{
  socket, connect, write, close, print, M, ◌>>=◌, ◌>>◌, return, exit, within, invoke, recv_into,
}

abbrev pub buflen : ℕ
buflen = 1024

-- `msg[len] = '\0'` has to lie inside `buf`.
unfoldable pub do_echo_request : (received : List ℕ) → Option (List ℕ)
do_echo_request received = if ltb (length received) buflen then some (until_nul received) else none

-- A newline at the end is replaced by NUL.
abbrev pub end_line : List ℕ → List ℕ
end_line [] = []
end_line (b ∷ []) = (if b == 10 then 0 else b) ∷ []
end_line (b ∷ c ∷ cs) = b ∷ end_line (c ∷ cs)

-- What follows the `read` of a line, and of an answer.
abbrev pub send_line : (sockfd : ℕ) → Option (List ℕ) → M (Unit {0})
send_line sockfd none = exit 1
send_line sockfd (some []) = exit 1
send_line sockfd (some (b ∷ bs)) = do
  within (ltb (length (b ∷ bs)) 1024)
  invoke (print (until_nul (end_line (b ∷ bs))))
  invoke (write sockfd (end_line (b ∷ bs)))
  return tt

unfoldable pub cmd_read_data : (fd sockfd : ℕ) → M (Unit {0})
cmd_read_data fd sockfd = do msg ← recv_into fd 1023 1024; send_line sockfd msg

abbrev pub show_answer : Option (List ℕ) → M (Unit {0})
show_answer none = return tt
show_answer (some []) = exit 1
show_answer (some (b ∷ bs)) = do
  within (ltb (length (b ∷ bs)) 1024)
  invoke (print (until_nul (b ∷ bs)))
  return tt

unfoldable pub socket_read_data : (fd : ℕ) → M (Unit {0})
socket_read_data fd = do msg ← recv_into fd 1023 1024; show_answer msg

abbrev pub connected : ℕ → ℤ → M ℤ
connected sockfd (negsuc n) = do invoke (close sockfd); return (negsuc 0)
connected sockfd (pos n) = return (pos sockfd)

abbrev pub with_socket : ℤ → M ℤ
with_socket (negsuc n) = return (negsuc n)
with_socket (pos sockfd) = do status ← invoke (connect sockfd); connected sockfd status

-- `valid` is the result of `inet_aton`.
unfoldable pub connect_server : (valid : Bool) → M ℤ
connect_server valid =
    if valid then (do sockfd ← invoke socket; with_socket sockfd) else return (negsuc 0)
