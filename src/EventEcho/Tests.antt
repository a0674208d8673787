-- ===== src/EventEcho/Tests.antt =====
-- The typed line "hi".
use os_study_code.Base.{◌≡◌, refl, some, [], ◌∷◌, arith}
use os_study_code.Base.Int.{pos}
use os_study_code.Base.Text.{codes}
use os_study_code.Sys.{Sys, Call}
use os_study_code.Sys.Runs.{Ends}
use os_study_code.EventEcho.{do_echo_request, cmd_read_data, socket_read_data}
use os_study_code.EventEcho.Lines.{cmd_read_data-do_echo_request}

abbrev typed : Sys
typed = record {
  results = λ n. pos 3;
  chunks = λ n. some 1023;
  tick = 0;
  stream = codes "hi\n";
  calls = [];
}

abbrev answered : Sys
answered = record typed { stream = codes "hi" }

cmd_read_data-do_echo_request_example :
    Ends
      (Call.write 3 (104 ∷ 105 ∷ 0 ∷ []) ∷ Call.print (codes "hi") ∷ Call.read 0 1023 ∷ [])
      []
      (cmd_read_data 0 3 typed)
    × (do_echo_request (104 ∷ 105 ∷ 0 ∷ []) ≡ some (codes "hi"))
    × Ends (Call.print (codes "hi") ∷ Call.read 3 1023 ∷ []) [] (socket_read_data 3 answered)
cmd_read_data-do_echo_request_example =
    cmd_read_data-do_echo_request 0 3 1023 1023 104 (codes "i") typed answered refl (omega arith)
      refl refl (omega arith) refl refl (omega arith)
