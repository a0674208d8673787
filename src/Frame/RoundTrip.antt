-- ===== src/Frame/RoundTrip.antt =====
-- A packet arrives as it was sent.
use mathlib.Core.Path.{subst}
use os_study_code.Base.{
  ℕ, zero, suc, ◌+◌, ◌-◌, ◌%◌, ◌^◌, ◌≤◌, ◌<◌, ◌≡◌, refl, sym, ap, ◌∙◌, inl, inr, true, false, none,
  some, List, ◌∷◌, ◌++◌, length, ltb, leb, arith, ◌⊎◌,
}
use os_study_code.Base.Int.{ℤ, pos}
use os_study_code.Base.Text.{ntohl, htonl}
use os_study_code.Sys.{Sys, fault, Call, invoke, got, log, within, ◌>>=◌}
use os_study_code.Sys.Runs.{made, recv_into_exact, Ends}
use os_study_code.Sys.Held.{is_null}
use os_study_code.Sys.Reads.{recv-none, recv-some}
use os_study_code.Frame.{
  framed, respond_frame, answer, fill, read_content, serve_client, packet, header_tag,
  response_message, room_for, is_length, header_size,
}
use os_study_code.Frame.Release.{Fits}
use os_study_code.Http.Text.{until_nul}

-- The calls for a message that is accepted, from `malloc` on.
abbrev pub accepted : (c : ℕ) → (p : ℤ) → List ℕ → List Call → List Call
accepted c p message before =
    Call.close c
    ∷ Call.free p
    ∷ Call.write c (packet response_message)
    ∷ Call.print message
    ∷ Call.read c (length message)
    ∷ Call.alloc (length message + 1)
    ∷ before

fill-Ends :
    (c k : ℕ) (p : ℤ) (message rest : List ℕ) (s : Sys)
    → Fits (length message)
    → until_nul message ≡ message
    → s.chunks s.tick ≡ some k
    → length message ≤ k
    → s.stream ≡ message ++ rest
    → Ends
        (Call.close c
          ∷ Call.free p
          ∷ Call.write c (packet response_message)
          ∷ Call.print message
          ∷ Call.read c (length message)
          ∷ made s)
        rest
        (fill c (length message) p s)
unfolding fill answer respond_frame invoke
fill-Ends c k p message rest s fits clean comes le is =
    let n = length message in
    let r = recv_into_exact c n (room_for n) k message rest s comes le refl (omega arith) is in
    let whole : is_length (some message) n ≡ true = ground arith in
    let inside : ltb n (room_for n) ≡ true = ground arith in
    rw (r, ◌>>=◌) (rw whole (rw (inside, within, clean) (refl, refl)))

read_content-Ends :
    (c k : ℕ) (message rest : List ℕ) (s : Sys)
    → Fits (length message)
    → until_nul message ≡ message
    → is_null (s.results s.tick) ≡ false
    → s.chunks (s.tick + 1) ≡ some k
    → length message ≤ k
    → s.stream ≡ message ++ rest
    → Ends
        (Call.close c
          ∷ Call.free (s.results s.tick)
          ∷ Call.write c (packet response_message)
          ∷ Call.print message
          ∷ Call.read c (length message)
          ∷ Call.alloc (length message + 1)
          ∷ made s)
        rest
        (read_content c (length message) s)
unfolding read_content invoke
read_content-Ends c k message rest s fits clean given comes le is =
    let room : room_for (length message) ≡ length message + 1 = omega arith in
    let s' = log (Call.alloc (room_for (length message))) (s.results s.tick) s in
    let run = fill-Ends c k (s.results s.tick) message rest s' fits clean comes le is in
    rw given (
      subst
        (λ n.
          Ends
            (Call.close c
              ∷ Call.free (s.results s.tick)
              ∷ Call.write c (packet response_message)
              ∷ Call.print message
              ∷ Call.read c (length message)
              ∷ Call.alloc n
              ∷ made s)
            rest (fill c (length message) (s.results s.tick) s'))
        room run)

-- A packet that the client builds for a message of bytes other than NUL, fewer than 2 ^ 32 - 1,
-- if each read delivers what it asks for and malloc succeeds, makes the server print just that
-- message, write the packet of its response, free its buffer and close the socket; what follows
-- the packet stays unread.
pub serve_client-packet :
    (c k l : ℕ) (message rest : List ℕ) (s : Sys)
    → Fits (length message)
    → until_nul message ≡ message
    → s.stream ≡ packet message ++ rest
    → s.chunks s.tick ≡ some k
    → header_size ≤ k
    → is_null (s.results (s.tick + 1)) ≡ false
    → s.chunks (s.tick + 1 + 1) ≡ some l
    → length message ≤ l
    → Ends
        (Call.close c
          ∷ Call.free (s.results (s.tick + 1))
          ∷ Call.write c (packet response_message)
          ∷ Call.print message
          ∷ Call.read c (length message)
          ∷ Call.alloc (length message + 1)
          ∷ Call.read c header_size
          ∷ made s)
        rest
        (serve_client c s)
unfolding serve_client
serve_client-packet c k l message rest s fits clean is comes le given comes' le' =
    let sent = is ∙ ap (λ text. framed text ++ rest) clean in
    let n = length message in
    let header = header_tag ++ htonl (n % 2 ^ 32) in
    let r = recv_into_exact c 8 8 k header (message ++ rest) s comes le refl (omega arith) sent in
    let s' = record (log (Call.read c 8) (pos 8) s) { stream = message ++ rest } in
    let length_back : ntohl (htonl (n % 2 ^ 32)) ≡ n = omega arith in
    rw (r, ◌>>=◌)
      (subst
        (λ x.
          Ends (accepted c (s.results (s.tick + 1)) message (Call.read c header_size ∷ made s)) rest
            (read_content c x s'))
        (sym length_back) (read_content-Ends c l message rest s' fits clean given comes' le' refl))

-- The next `read` fails, or the peer sends a byte more.
abbrev pub GoesOn : List ℕ → Sys → Type 0
GoesOn rest s =
    (s.chunks s.tick ≡ none)
    ⊎ ((x : ℕ) × (l : ℕ) × (xs : List ℕ) × (s.chunks s.tick ≡ some (suc l)) × (rest ≡ x ∷ xs))

got-pos : (n k x : ℕ) (xs : List ℕ) → 0 < n → 0 < length (got n (suc k) (x ∷ xs))
got-pos zero k x xs lt = absurd (omega arith)
got-pos (suc n) k x xs lt = omega arith

fill-fault :
    (c n : ℕ) (p : ℤ) (rest : List ℕ) (s : Sys)
    → n ≡ 2 ^ 32 - 1
    → s.stream ≡ rest
    → GoesOn rest s
    → (fill c n p s).0 ≡ fault
unfolding fill answer respond_frame
fill-fault c n p rest s full is (inl fails) =
    let empty : leb 0 (room_for n) ≡ true = ground arith in
    let taken : is_length none n ≡ true = ground arith in
    let outside : ltb n (room_for n) ≡ false = ground arith in
    rw (recv-none c n s fails, ◌>>=◌) (rw (empty, within) (rw taken (rw (outside, within) refl)))
fill-fault c n p rest s full is (inr (x, l, xs, comes, more)) =
    let longer : 0 < length (got n (suc l) s.stream) =
      subst (λ bytes. 0 < length (got n (suc l) bytes)) (sym (is ∙ more))
        (got-pos n l x xs (omega arith)) in
    let over : leb (length (got n (suc l) s.stream)) (room_for n) ≡ false = ground arith in
    rw (recv-some c n (suc l) s comes, ◌>>=◌) (rw (over, within) refl)

-- A header with the tag that announces 2 ^ 32 - 1 bytes makes the server store outside its
-- buffer, if malloc of 0 bytes returns an address and the next read fails or brings a byte.
pub serve_client-fault :
    (c k : ℕ) (rest : List ℕ) (s : Sys)
    → s.stream ≡ header_tag ++ (htonl (2 ^ 32 - 1) ++ rest)
    → s.chunks s.tick ≡ some k
    → header_size ≤ k
    → is_null (s.results (s.tick + 1)) ≡ false
    → GoesOn rest (record s { tick = s.tick + 1 + 1 })
    → (serve_client c s).0 ≡ fault
unfolding serve_client read_content invoke
serve_client-fault c k rest s is comes le given more =
    let header = header_tag ++ htonl (2 ^ 32 - 1) in
    let r = recv_into_exact c 8 8 k header rest s comes le refl (omega arith) is in
    let s' = record (log (Call.read c 8) (pos 8) s) { stream = rest } in
    let s'' = log (Call.alloc (room_for (2 ^ 32 - 1))) (s.results (s.tick + 1)) s' in
    rw (r, ◌>>=◌)
      (rw given (fill-fault c (2 ^ 32 - 1) (s.results (s.tick + 1)) rest s'' refl refl more))
