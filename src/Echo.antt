-- ===== src/Echo.antt =====
-- echo_server/echo_server.c and echo_client.c: a server that answers a few questions.
--
-- `answer_next` is a round of the loop of the server; its socket is opened as in Startup.
pub mod Dialogue
pub mod Release
mod Tests
use os_study_code.Http.Text.{until_nul}
use os_study_code.Base.{
  ℕ, ◌+◌, ◌-◌, Bool, true, false, Option, none, some, List, [], ◌∷◌, length, ltb, ◌==◌,
  if◌then◌else◌,
}
use os_study_code.Base.Int.{ℤ, pos, negsuc}
use os_study_code.Base.Text.{codes}
use os_study_code.Sys.{
  socket, connect, accept, write, close, print, M, ◌>>=◌, ◌>>◌, return, exit, within, invoke,
  recv_into,
}

-- `strcmp(buffer, text) == 0`, for a buffer that ends with the first NUL or with the bytes.
abbrev pub str_eq : List ℕ → List ℕ → Bool
str_eq [] [] = true
str_eq [] (y ∷ ys) = false
str_eq (x ∷ xs) [] = x == 0
str_eq (x ∷ xs) (y ∷ ys) = if x == y then str_eq xs ys else false

abbrev pub reply_to : List ℕ → List ℕ
reply_to buffer =
    if str_eq buffer (codes "Hello")
    then codes "And you?"
    else if str_eq buffer (codes "Are you a server?")
    then codes "Yes"
    else if str_eq buffer (codes "Is it sunny today?")
    then codes "No"
    else codes "I don't know"

-- `buffer[len] = '\0'` and what follows it.
unfoldable pub reply : (client_sock : ℕ) → Option (List ℕ) → M (Unit {0})
reply client_sock none = return tt
reply client_sock (some buffer) = do
  within (ltb (length buffer) 256)
  invoke (print (until_nul buffer))
  invoke (write client_sock (reply_to buffer))
  return tt

unfoldable pub answer_client : (client_sock : ℕ) → M (Unit {0})
unfolding reply
answer_client client_sock = do
  buffer ← recv_into client_sock 255 256
  reply client_sock buffer
  invoke (close client_sock)
  return tt

abbrev pub answer_accepted : ℤ → M (Unit {0})
answer_accepted (negsuc n) = return tt
answer_accepted (pos client_sock) = answer_client client_sock

unfoldable pub answer_next : (sock : ℕ) → M (Unit {0})
unfolding answer_client
answer_next sock = do client_sock ← invoke (accept sock); answer_accepted client_sock

-- `if (n > 0)` in `send_message`: the message is printed, or an error.
unfoldable pub show : Option (List ℕ) → M (Unit {0})
show none = do invoke (print (codes "error!!!")); return tt
show (some []) = do invoke (print (codes "error!!!")); return tt
show (some (b ∷ bs)) = do
  within (ltb (length (b ∷ bs)) 64)
  invoke (print (until_nul (b ∷ bs)))
  return tt

unfoldable pub converse : (sockfd : ℕ) → List ℕ → M (Unit {0})
unfolding show
converse sockfd message = do
  invoke (write sockfd (until_nul message))
  buffer ← recv_into sockfd 63 64
  show buffer
  invoke (close sockfd)
  return tt

abbrev pub give_up : ℕ → M (Unit {0})
give_up sockfd = do invoke (close sockfd); exit 1

abbrev pub connected : ℕ → List ℕ → ℤ → M (Unit {0})
connected sockfd message (negsuc n) = give_up sockfd
connected sockfd message (pos n) = converse sockfd message

abbrev pub with_socket : List ℕ → ℤ → M (Unit {0})
with_socket message (negsuc n) = exit 1
with_socket message (pos sockfd) = do r ← invoke (connect sockfd); connected sockfd message r

unfoldable pub send_message : List ℕ → M (Unit {0})
unfolding converse
send_message message = do sockfd ← invoke socket; with_socket message sockfd

-- `main` of the client, for one argument.
unfoldable pub run_client : List ℕ → M (Unit {0})
unfolding send_message
run_client message = do
  send_message message
  if str_eq message (codes "Hello") then send_message (codes "Me Too!") else return tt
