-- ===== src/Frame/Client.antt =====
-- `send_message`: what it prints, and what it gives back.
use mathlib.Core.Path.{subst}
use os_study_code.Base.{
  ap, ℕ, ◌+◌, ◌%◌, ◌^◌, ◌≤◌, ◌≡◌, refl, sym, ◌∙◌, inl, inr, true, false, Option, none, some, List,
  ◌∷◌, ◌++◌, take, drop, length, ltb, ◌==◌, arith, Bool-cases,
}
use os_study_code.Base.Int.{ℤ, pos, negsuc}
use os_study_code.Base.Text.{ntohl, htonl}
use os_study_code.Sys.{content, Sys, Call, invoke, log, within, ◌>>=◌}
use os_study_code.Sys.Runs.{Released, both_back, recv_into-Received, made, recv_into_exact, Ends}
use os_study_code.Sys.Held.{Resource, fd, memory, held, is_null, close_top}
use os_study_code.Http.Text.{until_nul}
use os_study_code.Frame.{
  framed, show_response, take_content, take_response, read_response, exchange, connected,
  send_message, with_socket, give_up, room_for, header_size, header_tag, tagged, packet,
}
use os_study_code.Frame.Release.{Fits, header-take}

give_up-Released :
    (c : ℕ) (qs : List Resource) (s : Sys)
    → held s.calls ≡ fd c ∷ qs
    → Released qs (give_up {A = Unit {0}} c s)
unfolding invoke
give_up-Released c qs s h = rw h (close_top c (s.results s.tick) qs)

show_response-Released :
    (c : ℕ) (p : ℤ) (n : ℕ) (bytes : List ℕ) (qs : List Resource) (s : Sys)
    → Fits n
    → is_null p ≡ false
    → held s.calls ≡ memory p ∷ fd c ∷ qs
    → Released qs (show_response c p n bytes s)
unfolding show_response invoke
show_response-Released c p n bytes qs s fits given h =
    let inside : ltb n (room_for n) ≡ true = ground arith in
    rw (inside, ◌>>=◌) (both_back c p (held s.calls) qs given h)

take_content-Released :
    (c : ℕ) (p : ℤ) (n : ℕ) (b : Option (List ℕ)) (qs : List Resource) (s : Sys)
    → Fits n
    → is_null p ≡ false
    → held s.calls ≡ memory p ∷ fd c ∷ qs
    → Released qs (take_content c p n b s)
unfolding take_content invoke
take_content-Released c p n none qs s fits given h = both_back c p (held s.calls) qs given h
take_content-Released c p n (some bytes) qs s fits given h = elim (Bool-cases (length bytes == n)) [
  | inl whole ↦ rw whole (show_response-Released c p n bytes qs s fits given h)
  | inr other ↦ rw other (both_back c p (held s.calls) qs given h)
]

read_response-Released :
    (c n : ℕ) (qs : List Resource) (s : Sys)
    → Fits n
    → held s.calls ≡ fd c ∷ qs
    → Released qs (read_response c n s)
unfolding read_response take_response invoke
read_response-Released c n qs s fits h =
    let p = s.results s.tick in
    let s' = log (Call.alloc (room_for n)) p s in
    elim (Bool-cases (is_null p)) [
      | inl null ↦
          let h' : held s'.calls ≡ fd c ∷ qs = rw null h in rw null (give_up-Released c qs s' h')
      | inr given ↦
          let h' : held s'.calls ≡ memory p ∷ fd c ∷ qs = rw (given, h) refl in
          let (b, s'', e, r) = recv_into-Received c n (room_for n) s' (omega arith) in
          rw given
            (rw (e, ◌>>=◌) (take_content-Released c p n b qs s'' fits given (r.same_held ∙ h')))
    ]

exchange-Released :
    (c : ℕ) (message : List ℕ) (qs : List Resource) (s : Sys)
    → Fits (ntohl (drop 4 (take 8 s.stream)))
    → held s.calls ≡ fd c ∷ qs
    → Released qs (exchange c message s)
unfolding exchange invoke
exchange-Released c message qs s fits h =
    let t = log (Call.write c (packet message)) (s.results s.tick) s in
    let (b, s', e, r) = recv_into-Received c header_size header_size t (omega arith) in
    let h' : held s'.calls ≡ fd c ∷ qs = r.same_held ∙ h in
    rw (e, ◌>>=◌)
      (elim (Bool-cases (length (content b) == header_size)) [
        | inl whole ↦ rw whole (elim (Bool-cases (tagged (content b))) [
          | inl ours ↦
              let announced =
                subst (λ l. Fits (ntohl (drop 4 l))) (sym (header-take b t r.part whole)) fits in
              rw ours (read_response-Released c (ntohl (drop 4 (content b))) qs s' announced h')
          | inr strange ↦ rw strange (give_up-Released c qs s' h')
        ])
        | inr short ↦ rw short (give_up-Released c qs s' h')
      ])

connected-Released :
    (c : ℕ) (message : List ℕ) (r : ℤ) (qs : List Resource) (s : Sys)
    → Fits (ntohl (drop 4 (take 8 s.stream)))
    → held s.calls ≡ fd c ∷ qs
    → Released qs (connected c message r s)
connected-Released c message (negsuc n) qs s fits h = give_up-Released c qs s h
connected-Released c message (pos n) qs s fits h = exchange-Released c message qs s fits h

-- Whatever the calls return, if the answer does not announce 2 ^ 32 - 1 bytes, the client of
-- frames ends without a fault, also where it exits, and it has closed and freed all that it
-- opened and allocated.
pub send_message-Released :
    (message : List ℕ) (s : Sys)
    → Fits (ntohl (drop 4 (take 8 s.stream)))
    → Released (held s.calls) (send_message message s)
unfolding send_message invoke
send_message-Released message s fits = with_socket-Released (s.results s.tick)
  where
    with_socket-Released :
        (r : ℤ) → Released (held s.calls) (with_socket message r (log Call.socket r s))
    with_socket-Released (negsuc n) = refl
    with_socket-Released (pos c) =
        let t = log Call.socket (pos c) s in
        connected-Released c message (s.results (s.tick + 1)) (held s.calls)
          (log (Call.connect c) (s.results (s.tick + 1)) t) fits refl

-- If the server's answer is a packet of fewer than 2 ^ 32 - 1 bytes, none of them NUL, each read
-- delivers what it asks for and malloc succeeds, then the client writes the packet of its
-- message, prints just the content of the answer, frees its buffer and closes the socket.
pub exchange-packet :
    (c k l : ℕ) (message answer rest : List ℕ) (s : Sys)
    → Fits (length answer)
    → until_nul answer ≡ answer
    → s.stream ≡ packet answer ++ rest
    → s.chunks (s.tick + 1) ≡ some k
    → header_size ≤ k
    → is_null (s.results (s.tick + 1 + 1)) ≡ false
    → s.chunks (s.tick + 1 + 1 + 1) ≡ some l
    → length answer ≤ l
    → Ends
        (Call.close c
          ∷ Call.free (s.results (s.tick + 1 + 1))
          ∷ Call.print answer
          ∷ Call.read c (length answer)
          ∷ Call.alloc (length answer + 1)
          ∷ Call.read c header_size
          ∷ Call.write c (packet message)
          ∷ made s)
        rest
        (exchange c message s)
unfolding exchange read_response take_response take_content show_response invoke
exchange-packet c k l message answer rest s fits clean is comes le given comes' le' =
    let sent = is ∙ ap (λ text. framed text ++ rest) clean in
    let n = length answer in
    let t = log (Call.write c (packet message)) (s.results s.tick) s in
    let header = header_tag ++ htonl (n % 2 ^ 32) in
    let r = recv_into_exact c 8 8 k header (answer ++ rest) t comes le refl (omega arith) sent in
    let s' = record (log (Call.read c 8) (pos 8) t) { stream = answer ++ rest } in
    let length_back : ntohl (htonl (n % 2 ^ 32)) ≡ n = omega arith in
    let room : room_for n ≡ n + 1 = omega arith in
    let p = s.results (s.tick + 1 + 1) in
    let s'' = log (Call.alloc (n + 1)) p s' in
    let r' = recv_into_exact c n (n + 1) l answer rest s'' comes' le' refl (omega arith) refl in
    let whole : (length answer == n) ≡ true = ground arith in
    let inside : ltb n (room_for n) ≡ true = ground arith in
    rw (r, ◌>>=◌)
      (rw length_back
        (rw given (rw room (rw (r', ◌>>=◌) (rw whole (rw (inside, within, clean) (refl, refl)))))))
