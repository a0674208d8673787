-- ===== src/Echo/Release.antt =====
-- Each side gives back its sockets, and no store leaves its buffer.
use mathlib.Core.Path.{subst}
use os_study_code.Base.{
  ℕ, ◌+◌, ◌≤◌, ◌≡◌, refl, ◌∙◌, inl, inr, true, Option, none, some, List, [], ◌∷◌, length, ltb,
  arith, Bool-cases,
}
use os_study_code.Base.Int.{ℤ, pos, negsuc}
use os_study_code.Base.Text.{codes}
use os_study_code.Sys.{Sys, Call, invoke, log, within, ◌>>=◌, content, close, return, ◌>>◌}
use os_study_code.Sys.Held.{Resource, fd, held, close_top}
use os_study_code.Sys.Runs.{
  Leaves, Released, recv_into-Received, length-Received, Leaves-go_on, Released-go_on,
  Leaves-Released,
}
use os_study_code.Http.Text.{until_nul}
use os_study_code.Echo.{
  reply, answer_client, answer_accepted, answer_next, show, converse, connected, with_socket,
  send_message, run_client, str_eq,
}

reply-Leaves :
    (c : ℕ) (b : Option (List ℕ)) (qs : List Resource) (t : Sys)
    → length (content b) ≤ 255
    → held t.calls ≡ qs
    → Leaves qs (reply c b t)
unfolding reply invoke
reply-Leaves c none qs t le h = h
reply-Leaves c (some bytes) qs t le h =
    let inside : ltb (length bytes) 256 ≡ true = ground arith in rw (inside, within, ◌>>=◌) h

hang_up-Leaves :
    (c : ℕ) (qs : List Resource) (s : Sys)
    → held s.calls ≡ fd c ∷ qs
    → Leaves qs ((do invoke (close c); return tt) s)
unfolding invoke
hang_up-Leaves c qs s h = rw h (close_top c (s.results s.tick) qs)

answer_client-Leaves :
    (c : ℕ) (qs : List Resource) (s : Sys)
    → held s.calls ≡ fd c ∷ qs
    → Leaves qs (answer_client c s)
unfolding answer_client
answer_client-Leaves c qs s h =
    let (b, t, e, r) = recv_into-Received c 255 256 s (omega arith) in
    rw (e, ◌>>=◌)
      (Leaves-go_on (fd c ∷ qs) qs (reply c b t) _
        (reply-Leaves c b (fd c ∷ qs) t (length-Received 255 s b t r) (r.same_held ∙ h))
        (hang_up-Leaves c qs))

pub answer_next-Leaves : (sock : ℕ) (s : Sys) → Leaves (held s.calls) (answer_next sock s)
unfolding answer_next invoke
answer_next-Leaves sock s = accepted (s.results s.tick)
  where
    accepted : (r : ℤ) → Leaves (held s.calls) (answer_accepted r (log (Call.accept sock) r s))
    accepted (negsuc n) = refl
    accepted (pos c) = answer_client-Leaves c (held s.calls) (log (Call.accept sock) (pos c) s) refl

show-Leaves :
    (b : Option (List ℕ)) (qs : List Resource) (t : Sys)
    → length (content b) ≤ 63
    → held t.calls ≡ qs
    → Leaves qs (show b t)
unfolding show invoke
show-Leaves none qs t le h = h
show-Leaves (some []) qs t le h = h
show-Leaves (some (x ∷ xs)) qs t le h =
    let inside : ltb (length (x ∷ xs)) 64 ≡ true = ground arith in rw (inside, within, ◌>>=◌) h

converse-Leaves :
    (c : ℕ) (message : List ℕ) (qs : List Resource) (s : Sys)
    → held s.calls ≡ fd c ∷ qs
    → Leaves qs (converse c message s)
unfolding converse invoke
converse-Leaves c message qs s h =
    let s' = log (Call.write c (until_nul message)) (s.results s.tick) s in
    let (b, t, e, r) = recv_into-Received c 63 64 s' (omega arith) in
    rw (e, ◌>>=◌)
      (Leaves-go_on (fd c ∷ qs) qs (show b t) _
        (show-Leaves b (fd c ∷ qs) t (length-Received 63 s' b t r) (r.same_held ∙ h))
        (λ u at_end. rw at_end (close_top c (u.results u.tick) qs)))

connected-Released :
    (c : ℕ) (message : List ℕ) (r : ℤ) (qs : List Resource) (s : Sys)
    → held s.calls ≡ fd c ∷ qs
    → Released qs (connected c message r s)
unfolding invoke
connected-Released c message (negsuc n) qs s h = rw h (close_top c (s.results s.tick) qs)
connected-Released c message (pos n) qs s h =
    Leaves-Released qs (converse c message s) (converse-Leaves c message qs s h)

send_message-Released :
    (message : List ℕ) (s : Sys) → Released (held s.calls) (send_message message s)
unfolding send_message invoke
send_message-Released message s = opened (s.results s.tick)
  where
    opened : (r : ℤ) → Released (held s.calls) (with_socket message r (log Call.socket r s))
    opened (negsuc n) = refl
    opened (pos c) =
        let t = log Call.socket (pos c) s in
        connected-Released c message (s.results (s.tick + 1)) (held s.calls)
          (log (Call.connect c) (s.results (s.tick + 1)) t) refl

-- Whatever the calls return, the echo client, with its second message after Hello, ends without a
-- store outside its buffer, also where it exits, and has closed every socket that it opened.
pub run_client-Released :
    (message : List ℕ) (s : Sys) → Released (held s.calls) (run_client message s)
unfolding run_client
run_client-Released message s =
    Released-go_on (held s.calls) (send_message message s) _ (send_message-Released message s)
      (λ t h. elim (Bool-cases (str_eq message (codes "Hello"))) [
        | inl again ↦ rw again (
            subst (λ qs. Released qs (send_message (codes "Me Too!") t)) h
              (send_message-Released (codes "Me Too!") t))
        | inr once ↦ rw once h
      ])
