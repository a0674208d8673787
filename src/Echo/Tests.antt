-- ===== src/Echo/Tests.antt =====
-- The dialogue at concrete connections.
use os_study_code.Base.{ℕ, ◌≡◌, refl, some, List, [], ◌∷◌, arith}
use os_study_code.Base.Int.{pos}
use os_study_code.Base.Text.{codes}
use os_study_code.Sys.{Sys, Call}
use os_study_code.Sys.Runs.{Ends}
use os_study_code.Echo.{reply_to, answer_client, converse}
use os_study_code.Echo.Dialogue.{answer_client-converse}

-- Every call returns 5, and each `read` delivers what is there.
abbrev with_stream : List ℕ → Sys
with_stream bytes = record {
  results = λ n. pos 5;
  chunks = λ n. some 100;
  tick = 0;
  stream = bytes;
  calls = [];
}

reply_to_hello : reply_to (codes "Hello") ≡ codes "And you?"
reply_to_hello = refl

-- The comparison stops at the NUL.
reply_to_nul : reply_to (b'H' ∷ b'e' ∷ b'l' ∷ b'l' ∷ b'o' ∷ 0 ∷ b'x' ∷ []) ≡ codes "And you?"
reply_to_nul = refl

answer_client-converse_example :
    Ends
      (Call.close 4
        ∷ Call.write 4 (codes "And you?")
        ∷ Call.print (codes "Hello")
        ∷ Call.read 4 255
        ∷ [])
      []
      (answer_client 4 (with_stream (codes "Hello")))
    × Ends
        (Call.close 3
          ∷ Call.print (codes "And you?")
          ∷ Call.read 3 63
          ∷ Call.write 3 (codes "Hello")
          ∷ [])
        []
        (converse 3 (codes "Hello") (with_stream (codes "And you?")))
answer_client-converse_example =
    answer_client-converse 4 3 100 100 (codes "Hello") (with_stream (codes "Hello"))
      (with_stream (codes "And you?")) (omega arith) refl refl refl (omega arith) refl refl
      (omega arith)
