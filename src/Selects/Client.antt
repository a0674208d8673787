-- ===== src/Selects/Client.antt =====
-- mutipleIO/mutiplc.c: the client of the servers over poll and select.
--
-- The result of `socket` is not looked at; on -1 `connect` fails, as connect(2) documents.
use os_study_code.Base.{ℕ, ◌+◌, ◌≤◌, ◌≡◌, refl, Option, none, some, List, [], ◌∷◌, arith}
use os_study_code.Base.Int.{ℤ, pos, negsuc}
use os_study_code.Sys.{
  Sys, Call, socket, connect, write, close, print, M, ◌>>=◌, ◌>>◌, return, exit, invoke, recv_into,
  log,
}
use os_study_code.Sys.Runs.{made, Ends, recv_into_exact}

-- `ch` after a `read` of one byte.
abbrev pub byte_of : ℕ → Option (List ℕ) → ℕ
byte_of ch none = ch
byte_of ch (some []) = ch
byte_of ch (some (b ∷ bs)) = b

-- The byte is written, one is read, and printed.
unfoldable pub swap_byte : (client_sockfd ch : ℕ) → M ℕ
swap_byte client_sockfd ch = do
  invoke (write client_sockfd (ch ∷ []))
  bytes ← recv_into client_sockfd 1 1
  invoke (print (byte_of ch bytes ∷ []))
  return (byte_of ch bytes)

unfoldable pub talk : (client_sockfd : ℕ) → M (Unit {0})
unfolding swap_byte
talk client_sockfd = do
  first ← swap_byte client_sockfd 65
  swap_byte client_sockfd first
  invoke (close client_sockfd)
  return tt

abbrev pub connected : ℕ → ℤ → M (Unit {0})
connected client_sockfd (negsuc n) = exit 1
connected client_sockfd (pos n) = talk client_sockfd

abbrev pub with_socket : ℤ → M (Unit {0})
with_socket (negsuc n) = exit 1
with_socket (pos client_sockfd) = do
  result ← invoke (connect client_sockfd)
  connected client_sockfd result

unfoldable pub run_client : M (Unit {0})
unfolding talk
run_client = do client_sockfd ← invoke socket; with_socket client_sockfd

-- Two bytes `b` and `d` come back, each with its read: the second question is the first answer.
pub talk-Ends :
    (sock k l b d : ℕ) (s : Sys)
    → s.stream ≡ b ∷ d ∷ []
    → s.chunks (s.tick + 1) ≡ some k
    → 1 ≤ k
    → s.chunks (s.tick + 1 + 1 + 1 + 1) ≡ some l
    → 1 ≤ l
    → Ends
        (Call.close sock
          ∷ Call.print (d ∷ [])
          ∷ Call.read sock 1
          ∷ Call.write sock (b ∷ [])
          ∷ Call.print (b ∷ [])
          ∷ Call.read sock 1
          ∷ Call.write sock (65 ∷ [])
          ∷ made s)
        []
        (talk sock s)
unfolding talk swap_byte invoke
talk-Ends sock k l b d s is comes le comes' le' =
    let s1 = log (Call.write sock (65 ∷ [])) (s.results s.tick) s in
    let r1 = recv_into_exact sock 1 1 k (b ∷ []) (d ∷ []) s1 comes le refl (omega arith) is in
    let s2 = record (log (Call.read sock 1) (pos 1) s1) { stream = d ∷ [] } in
    let s3 = log (Call.print (b ∷ [])) (s.results s2.tick) s2 in
    let s4 = log (Call.write sock (b ∷ [])) (s.results s3.tick) s3 in
    let r2 = recv_into_exact sock 1 1 l (d ∷ []) [] s4 comes' le' refl (omega arith) refl in
    rw (r1, ◌>>=◌) (rw (r2, ◌>>=◌) (refl, refl))
