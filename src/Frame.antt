-- ===== src/Frame.antt =====
-- echo_server/TCPfenbao/echo_server.c and echo_client.c: messages in frames over TCP.
--
-- A frame is the tag "FBEB", the length of the message in network order, and the message. The
-- programs read the header and the message with one `read` each. A round of the server's loop is
-- `serve_next`. Stores to a buffer are checked against its size.
pub mod Client
pub mod Release
pub mod RoundTrip
mod Tests
use os_study_code.Base.{
  ℕ, zero, suc, ◌+◌, ◌-◌, leb, ◌%◌, ◌^◌, Bool, true, false, not, Option, none, some, List, [], ◌∷◌,
  ◌++◌, take, drop, length, ltb, ◌==◌, if◌then◌else◌,
}
use os_study_code.Base.Int.{ℤ, pos, negsuc}
use os_study_code.Base.Text.{codes, htonl, ntohl}
use os_study_code.Sys.{
  Call, socket, bind, listen, connect, accept, write, close, alloc, free, print, M, ◌>>=◌, ◌>>◌,
  return, exit, within, invoke, recv_into, content,
}
use os_study_code.Sys.Held.{is_null}
use os_study_code.Http.Text.{until_nul}

abbrev pub header_tag : List ℕ
header_tag = codes "FBEB"

abbrev pub header_size : ℕ
header_size = 8

abbrev pub response_message : List ℕ
response_message = codes "Data received successfully"

-- The tag, the length as `htonl` gives it, and the content.
abbrev pub framed : List ℕ → List ℕ
framed text = header_tag ++ (htonl (length text % 2 ^ 32) ++ text)

-- `strlen(message)` and `memcpy` take what is before the NUL.
abbrev pub packet : List ℕ → List ℕ
packet message = framed (until_nul message)

-- `strncmp(header_buffer, HEADER_TAG, 4) == 0`
abbrev pub tagged : List ℕ → Bool
tagged (a ∷ b ∷ c ∷ d ∷ bs) =
    if a == b'F' then if b == b'B' then if c == b'E' then d == b'B' else false else false else false
tagged bs = false

-- `len != data_length`, where both are taken as `uint32_t`: the result -1 of `read` is 2 ^ 32 - 1.
abbrev pub is_length : Option (List ℕ) → ℕ → Bool
is_length none n = 2 ^ 32 - 1 == n
is_length (some bytes) n = length bytes == n

-- `malloc(data_length + 1)`, in 32 bits.
abbrev pub room_for : ℕ → ℕ
room_for n = (n + 1) % 2 ^ 32

unfoldable pub hang_up : (client_sock : ℕ) → M (Unit {0})
hang_up client_sock = do invoke (close client_sock); return tt

unfoldable pub drop_frame : (client_sock : ℕ) → ℤ → M (Unit {0})
drop_frame client_sock p = do invoke (free p); invoke (close client_sock); return tt

-- The end of the string is stored at `data_length`.
unfoldable pub respond_frame : (client_sock : ℕ) → ℤ → ℕ → List ℕ → M (Unit {0})
respond_frame client_sock p data_length bytes = do
  within (ltb data_length (room_for data_length))
  invoke (print (until_nul bytes))
  invoke (write client_sock (packet response_message))
  invoke (free p)
  invoke (close client_sock)
  return tt

unfoldable pub answer : (client_sock : ℕ) → ℤ → ℕ → Option (List ℕ) → M (Unit {0})
unfolding respond_frame drop_frame
answer client_sock p data_length bytes =
    if is_length bytes data_length
    then respond_frame client_sock p data_length (content bytes)
    else drop_frame client_sock p

unfoldable pub fill : (client_sock data_length : ℕ) → ℤ → M (Unit {0})
unfolding answer
fill client_sock data_length p = do
  bytes ← recv_into client_sock data_length (room_for data_length)
  answer client_sock p data_length bytes

-- From `malloc` on.
unfoldable pub read_content : (client_sock data_length : ℕ) → M (Unit {0})
unfolding fill hang_up
read_content client_sock data_length = do
  p ← invoke (alloc (room_for data_length))
  if is_null p then hang_up client_sock else fill client_sock data_length p

abbrev pub serve_header : (client_sock : ℕ) → List ℕ → M (Unit {0})
serve_header client_sock header =
    if length header == header_size
    then if tagged header
      then read_content client_sock (ntohl (drop 4 header))
      else hang_up client_sock
    else hang_up client_sock

unfoldable pub serve_client : (client_sock : ℕ) → M (Unit {0})
unfolding read_content hang_up
serve_client client_sock = do
  header ← recv_into client_sock header_size header_size
  serve_header client_sock (content header)

abbrev pub serve_accepted : ℤ → M (Unit {0})
serve_accepted (negsuc n) = return tt
serve_accepted (pos client_sock) = serve_client client_sock

-- A round of the loop of the server.
unfoldable pub serve_next : (sock : ℕ) → M (Unit {0})
unfolding serve_client
serve_next sock = do client_sock ← invoke (accept sock); serve_accepted client_sock

-- `send_message`, from the answer's header on; `n` is an `ssize_t`, so -1 is no length.
abbrev pub give_up : {A : Type 0} → ℕ → M A
give_up sockfd = do invoke (close sockfd); exit 1

unfoldable pub show_response : (sockfd : ℕ) → ℤ → ℕ → List ℕ → M (Unit {0})
show_response sockfd p response_length bytes = do
  within (ltb response_length (room_for response_length))
  invoke (print (until_nul bytes))
  invoke (free p)
  invoke (close sockfd)
  return tt

unfoldable pub take_content : (sockfd : ℕ) → ℤ → ℕ → Option (List ℕ) → M (Unit {0})
unfolding show_response
take_content sockfd p response_length none = do invoke (free p); give_up sockfd
take_content sockfd p response_length (some bytes) =
    if length bytes == response_length
    then show_response sockfd p response_length bytes
    else do invoke (free p); give_up sockfd

unfoldable pub take_response : (sockfd response_length : ℕ) → ℤ → M (Unit {0})
unfolding take_content
take_response sockfd response_length p = do
  bytes ← recv_into sockfd response_length (room_for response_length)
  take_content sockfd p response_length bytes

unfoldable pub read_response : (sockfd response_length : ℕ) → M (Unit {0})
unfolding take_response
read_response sockfd response_length = do
  p ← invoke (alloc (room_for response_length))
  if is_null p then give_up sockfd else take_response sockfd response_length p

abbrev pub read_header : (sockfd : ℕ) → List ℕ → M (Unit {0})
read_header sockfd header =
    if length header == header_size
    then if tagged header then read_response sockfd (ntohl (drop 4 header)) else give_up sockfd
    else give_up sockfd

unfoldable pub exchange : (sockfd : ℕ) → List ℕ → M (Unit {0})
unfolding read_response
exchange sockfd message = do
  invoke (write sockfd (packet message))
  header ← recv_into sockfd header_size header_size
  read_header sockfd (content header)

abbrev pub connected : ℕ → List ℕ → ℤ → M (Unit {0})
connected sockfd message (negsuc n) = give_up sockfd
connected sockfd message (pos n) = exchange sockfd message

abbrev pub with_socket : List ℕ → ℤ → M (Unit {0})
with_socket message (negsuc n) = exit 1
with_socket message (pos sockfd) = do r ← invoke (connect sockfd); connected sockfd message r

unfoldable pub send_message : List ℕ → M (Unit {0})
unfolding exchange
send_message message = do sockfd ← invoke socket; with_socket message sockfd
