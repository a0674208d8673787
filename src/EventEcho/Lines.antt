-- ===== src/EventEcho/Lines.antt =====
-- A line that is typed comes back; and what the callbacks do otherwise.
use os_study_code.Base.{
  ℕ, suc, ◌+◌, ◌≤◌, ◌<◌, ◌≡◌, refl, ap, ◌⊎◌, inl, inr, Bool, true, false, none, some, List, [], ◌∷◌,
  ◌++◌, length, length-append, ltb, arith, ◌==◌, Bool-cases,
}
use os_study_code.Base.Int.{ℤ, pos, negsuc}
use os_study_code.Http.Text.{until_nul}
use os_study_code.Sys.{Sys, Outcome, done, exited, fault, Call, invoke, log, within, ◌>>=◌}
use os_study_code.Sys.Held.{Resource, fd, held, close_top}
use os_study_code.Sys.Runs.{made, Ends, recv_into_all}
use os_study_code.EventEcho.{
  buflen, do_echo_request, end_line, cmd_read_data, socket_read_data, connected, with_socket,
  connect_server,
}

until_nul-append :
    (text tail : List ℕ) → until_nul text ≡ text → until_nul (text ++ (0 ∷ tail)) ≡ text
until_nul-append [] tail h = refl
until_nul-append (b ∷ bs) tail h = elim (Bool-cases (b == 0)) [
  | inl null ↦ let never = rw null at h in cc
  | inr char ↦
      let plain = rw char at h in
      rw char (ap (λ l. b ∷ l) (until_nul-append bs tail (same_tail b (until_nul bs) bs plain)))
]
  where
    same_tail : (a : ℕ) (xs ys : List ℕ) → a ∷ xs ≡ a ∷ ys → xs ≡ ys
    same_tail a xs ys e = cc

end_line-newline : (b : ℕ) (bs : List ℕ) → end_line (b ∷ (bs ++ (10 ∷ []))) ≡ b ∷ (bs ++ (0 ∷ []))
end_line-newline b [] = refl
end_line-newline b (c ∷ cs) = ap (λ l. b ∷ l) (end_line-newline c cs)

cmd_read_data-Ends :
    (input sock k b : ℕ) (bs : List ℕ) (s : Sys)
    → until_nul (b ∷ bs) ≡ b ∷ bs
    → length (b ∷ bs) < 1023
    → s.stream ≡ b ∷ (bs ++ (10 ∷ []))
    → s.chunks s.tick ≡ some k
    → 1023 ≤ k
    → Ends
        (Call.write sock (b ∷ (bs ++ (0 ∷ [])))
          ∷ Call.print (b ∷ bs)
          ∷ Call.read input 1023
          ∷ made s)
        []
        (cmd_read_data input sock s)
unfolding cmd_read_data invoke
cmd_read_data-Ends input sock k b bs s plain short is comes le =
    let long : length (b ∷ (bs ++ (10 ∷ []))) ≡ suc (length bs + 1) =
      ap suc (length-append bs (10 ∷ [])) in
    let r =
      recv_into_all input 1023 1024 k (b ∷ (bs ++ (10 ∷ []))) s comes (omega (arith, long))
        (omega (arith, long)) (omega (arith, long)) is in
    let inside : ltb (length (b ∷ (bs ++ (10 ∷ [])))) 1024 ≡ true = ground (arith, long) in
    rw (r, ◌>>=◌)
      (rw (inside, within, ◌>>=◌)
        (rw (end_line-newline b bs, until_nul-append (b ∷ bs) [] plain) (refl, refl)))

socket_read_data-Ends :
    (input k b : ℕ) (bs : List ℕ) (t : Sys)
    → until_nul (b ∷ bs) ≡ b ∷ bs
    → length (b ∷ bs) < 1023
    → t.stream ≡ b ∷ bs
    → t.chunks t.tick ≡ some k
    → 1023 ≤ k
    → Ends (Call.print (b ∷ bs) ∷ Call.read input 1023 ∷ made t) [] (socket_read_data input t)
unfolding socket_read_data invoke
socket_read_data-Ends input k b bs t plain short is comes le =
    let r =
      recv_into_all input 1023 1024 k (b ∷ bs) t comes (omega arith) (omega arith) (omega arith)
        is in
    let inside : ltb (length (b ∷ bs)) 1024 ≡ true = ground arith in
    rw (r, ◌>>=◌) (rw (inside, within, ◌>>=◌) (rw plain (refl, refl)))

do_echo_request-nul :
    (text : List ℕ)
    → until_nul text ≡ text
    → length text < 1023
    → do_echo_request (text ++ (0 ∷ [])) ≡ some text
unfolding do_echo_request
do_echo_request-nul text plain short =
    let inside : ltb (length (text ++ (0 ∷ []))) buflen ≡ true =
      ground (arith, length-append text (0 ∷ [])) in
    rw inside (ap some (until_nul-append text [] plain))

-- A typed line of at most 1022 bytes before its newline, at least one and no NUL among them: if
-- each read delivers what there is, the client writes it with a NUL for the newline, the server
-- answers with the bytes of the line alone, and the client prints them.
pub cmd_read_data-do_echo_request :
    (input sock k l b : ℕ) (bs : List ℕ) (s t : Sys)
    → until_nul (b ∷ bs) ≡ b ∷ bs
    → length (b ∷ bs) < 1023
    → s.stream ≡ b ∷ (bs ++ (10 ∷ []))
    → s.chunks s.tick ≡ some k
    → 1023 ≤ k
    → t.stream ≡ b ∷ bs
    → t.chunks t.tick ≡ some l
    → 1023 ≤ l
    → Ends
        (Call.write sock (b ∷ (bs ++ (0 ∷ [])))
          ∷ Call.print (b ∷ bs)
          ∷ Call.read input 1023
          ∷ made s)
        []
        (cmd_read_data input sock s)
      × (do_echo_request (b ∷ (bs ++ (0 ∷ []))) ≡ some (b ∷ bs))
      × Ends (Call.print (b ∷ bs) ∷ Call.read sock 1023 ∷ made t) [] (socket_read_data sock t)
cmd_read_data-do_echo_request input sock k l b bs s t plain short is comes le is' comes' le' = (
  cmd_read_data-Ends input sock k b bs s plain short is comes le,
  do_echo_request-nul (b ∷ bs) plain short,
  socket_read_data-Ends sock l b bs t plain short is' comes' le',
)

-- The buffer is too short for exactly one length.
pub do_echo_request-fault :
    (received : List ℕ)
    → length received ≤ 1024
    → ((do_echo_request received ≡ none) × (length received ≡ 1024))
      ⊎ ((do_echo_request received ≡ some (until_nul received)) × (length received < 1024))
unfolding do_echo_request
do_echo_request-fault received le = elim (Bool-cases (ltb (length received) buflen)) [
  | inl fits ↦ inr (rw fits refl, ground arith)
  | inr full ↦ inl (rw full refl, ground arith)
]

-- The client holds the socket that it returns, and no other.
abbrev pub Connected : List Resource → Outcome ℤ × Sys → Type 0
Connected qs (done (pos sock), s) = held s.calls ≡ fd sock ∷ qs
Connected qs (done (negsuc n), s) = held s.calls ≡ qs
Connected qs (exited code, s) = ⊥
Connected qs (fault, s) = ⊥

pub connect_server-Connected :
    (valid : Bool) (s : Sys) → Connected (held s.calls) (connect_server valid s)
unfolding connect_server invoke
connect_server-Connected false s = refl
connect_server-Connected true s = opened (s.results s.tick)
  where
    closed :
        (c : ℕ) (r : ℤ) (t : Sys)
        → held t.calls ≡ fd c ∷ held s.calls
        → Connected (held s.calls) (connected c r t)
    closed c (negsuc n) t h = rw h (close_top c (t.results t.tick) (held s.calls))
    closed c (pos n) t h = h

    opened : (r : ℤ) → Connected (held s.calls) (with_socket r (log Call.socket r s))
    opened (negsuc n) = refl
    opened (pos c) =
        let t = log Call.socket (pos c) s in
        closed c (s.results (s.tick + 1)) (log (Call.connect c) (s.results (s.tick + 1)) t) refl
