-- ===== src/Selects/Tests.antt =====
-- The client at 4 sends A and gets B.
use os_study_code.Base.{ℕ, ◌≡◌, refl, inr, Bool, ◌||◌, some, none, [], ◌∷◌, arith, ◌==◌}
use os_study_code.Base.Int.{pos}
use os_study_code.Selects.{Selects, Answer, fd_setsize, round}
use os_study_code.Selects.Rounds.{Follows, replies, reverse_onto, round-replies}

abbrev two_sockets : Selects
two_sockets = record {
  readfds = λ d. d == 3 || d == 4;
  ch = none;
  sockets = λ d. d == 3 || d == 4;
  sent = [];
}

abbrev only_client : ℕ → Bool
only_client d = d == 4

abbrev answers : ℕ → Answer
answers d = record { accepted = pos 5; nread = 1; received = some 65 }

round-replies_example :
    (t : Selects) × (round 3 only_client answers two_sockets ≡ some t)
    × Follows t
    × (t.sent ≡ reverse_onto (replies 3 only_client answers fd_setsize 0) [])
round-replies_example =
    round-replies 3 only_client answers two_sockets
      (λ d. record { fits = omega arith; reads = inr (65, refl) }) (λ d. refl)

got_b : replies 3 only_client answers fd_setsize 0 ≡ (4, some 66) ∷ []
got_b = refl
