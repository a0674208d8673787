-- ===== src/Echo/Dialogue.antt =====
-- A question that arrives whole is answered, and the answer is shown.
use os_study_code.Base.{
  ℕ, ◌+◌, ◌≤◌, ◌<◌, ◌≡◌, refl, true, some, List, [], ◌∷◌, length, ltb, arith, Bool-cases, inl, inr,
}
use os_study_code.Base.Int.{pos}
use os_study_code.Base.Text.{codes}
use os_study_code.Sys.{Sys, done, Call, invoke, log, within, ◌>>=◌}
use os_study_code.Http.Text.{until_nul}
use os_study_code.Sys.Runs.{made, Ends, recv_into_all}
use os_study_code.Echo.{reply, reply_to, str_eq, answer_client, show, converse}

length-reply_to : (m : List ℕ) → (0 < length (reply_to m)) × (length (reply_to m) ≤ 12)
length-reply_to m = elim (Bool-cases (str_eq m (codes "Hello"))) [
  | inl a ↦ rw a (omega arith, omega arith)
  | inr a ↦ rw a (elim (Bool-cases (str_eq m (codes "Are you a server?"))) [
    | inl b ↦ rw b (omega arith, omega arith)
    | inr b ↦ rw b (elim (Bool-cases (str_eq m (codes "Is it sunny today?"))) [
      | inl d ↦ rw d (omega arith, omega arith)
      | inr d ↦ rw d (omega arith, omega arith)
    ])
  ])
]

reply_to-plain : (m : List ℕ) → until_nul (reply_to m) ≡ reply_to m
reply_to-plain m = elim (Bool-cases (str_eq m (codes "Hello"))) [
  | inl a ↦ rw a refl
  | inr a ↦ rw a (elim (Bool-cases (str_eq m (codes "Are you a server?"))) [
    | inl b ↦ rw b refl
    | inr b ↦ rw b (elim (Bool-cases (str_eq m (codes "Is it sunny today?"))) [
      | inl d ↦ rw d refl
      | inr d ↦ rw d refl
    ])
  ])
]

show-print :
    (bytes : List ℕ) (t : Sys)
    → until_nul bytes ≡ bytes
    → 0 < length bytes
    → length bytes < 64
    → show (some bytes) t ≡ (done tt, log (Call.print bytes) (t.results t.tick) t)
unfolding show invoke
show-print [] t plain lt le = absurd (omega arith)
show-print (b ∷ bs) t plain lt le =
    let inside : ltb (length (b ∷ bs)) 64 ≡ true = ground arith in
    rw (inside, within, ◌>>=◌, plain) refl

answer_client-Ends :
    (c k : ℕ) (message : List ℕ) (s : Sys)
    → length message ≤ 255
    → until_nul message ≡ message
    → s.stream ≡ message
    → s.chunks s.tick ≡ some k
    → length message ≤ k
    → Ends
        (Call.close c
          ∷ Call.write c (reply_to message)
          ∷ Call.print message
          ∷ Call.read c 255
          ∷ made s)
        []
        (answer_client c s)
unfolding answer_client reply invoke
answer_client-Ends c k message s short clean is comes le =
    let r = recv_into_all c 255 256 k message s comes le short (omega arith) is in
    let inside : ltb (length message) 256 ≡ true = ground arith in
    rw (r, ◌>>=◌) (rw (inside, within, ◌>>=◌, clean) (refl, refl))

converse-Ends :
    (c k : ℕ) (message answer : List ℕ) (s : Sys)
    → until_nul message ≡ message
    → until_nul answer ≡ answer
    → 0 < length answer
    → length answer < 64
    → s.stream ≡ answer
    → s.chunks (s.tick + 1) ≡ some k
    → length answer ≤ k
    → Ends
        (Call.close c ∷ Call.print answer ∷ Call.read c 63 ∷ Call.write c message ∷ made s)
        []
        (converse c message s)
unfolding converse invoke
converse-Ends c k message answer s clean plain some_text short is comes le =
    let t = log (Call.write c message) (s.results s.tick) s in
    let r = recv_into_all c 63 64 k answer t comes le (omega arith) (omega arith) is in
    let t' = record (log (Call.read c 63) (pos (length answer)) t) { stream = [] } in
    rw clean (rw (r, ◌>>=◌) (rw (show-print answer t' plain some_text short, ◌>>=◌) (refl, refl)))

-- If a question of at most 255 bytes, none of them NUL, and then the answer each arrive with one
-- read, the server prints the question and writes its reply, and the client writes the question
-- and prints that reply; both close their sockets.
pub answer_client-converse :
    (c d k l : ℕ) (message : List ℕ) (s t : Sys)
    → length message ≤ 255
    → until_nul message ≡ message
    → s.stream ≡ message
    → s.chunks s.tick ≡ some k
    → length message ≤ k
    → t.stream ≡ reply_to message
    → t.chunks (t.tick + 1) ≡ some l
    → 12 ≤ l
    → Ends
        (Call.close c
          ∷ Call.write c (reply_to message)
          ∷ Call.print message
          ∷ Call.read c 255
          ∷ made s)
        []
        (answer_client c s)
      × Ends
          (Call.close d
            ∷ Call.print (reply_to message)
            ∷ Call.read d 63
            ∷ Call.write d message
            ∷ made t)
          []
          (converse d message t)
answer_client-converse c d k l message s t short clean is comes le is' comes' le' =
    let (some_text, limit) = length-reply_to message in
    (
      answer_client-Ends c k message s short clean is comes le,
      converse-Ends d l message (reply_to message) t clean (reply_to-plain message) some_text
          (omega arith) is' comes' (omega arith),
    )
