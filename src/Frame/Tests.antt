-- ===== src/Frame/Tests.antt =====
-- The two ends at a concrete connection.
use os_study_code.Base.{ℕ, ◌-◌, ◌^◌, ◌≡◌, refl, inr, some, List, [], ◌∷◌, ◌++◌, arith}
use os_study_code.Base.Int.{pos}
use os_study_code.Base.Text.{codes, htonl}
use os_study_code.Sys.{Sys, Call, fault}
use os_study_code.Frame.{
  packet, response_message, header_tag, serve_client, serve_next, send_message, exchange,
}
use os_study_code.Frame.Release.{serve_next-Leaves}
use os_study_code.Sys.Runs.{Leaves, Ends, Released}
use os_study_code.Frame.RoundTrip.{accepted, serve_client-packet, serve_client-fault}
use os_study_code.Frame.Client.{send_message-Released, exchange-packet}

-- Every call returns 5, and each `read` delivers what is there.
abbrev with_stream : List ℕ → Sys
with_stream bytes = record {
  results = λ n. pos 5;
  chunks = λ n. some 100;
  tick = 0;
  stream = bytes;
  calls = [];
}

serve_next-Leaves_example : Leaves [] (serve_next 3 (with_stream (packet (codes "hello"))))
serve_next-Leaves_example = serve_next-Leaves 3 (with_stream (packet (codes "hello"))) (omega arith)

serve_client-packet_example :
    Ends
      (accepted 4 (pos 5) (codes "hello") (Call.read 4 8 ∷ []))
      (codes "!")
      (serve_client 4 (with_stream (packet (codes "hello") ++ codes "!")))
serve_client-packet_example =
    serve_client-packet 4 100 100 (codes "hello") (codes "!")
      (with_stream (packet (codes "hello") ++ codes "!")) (omega arith) refl refl refl (omega arith)
      refl refl (omega arith)

serve_client-fault_example :
    (serve_client 4 (with_stream (header_tag ++ (htonl (2 ^ 32 - 1) ++ codes "x")))).0 ≡ fault
serve_client-fault_example =
    serve_client-fault 4 100 (codes "x")
      (with_stream (header_tag ++ (htonl (2 ^ 32 - 1) ++ codes "x"))) refl refl (omega arith) refl
      (inr (b'x', 99, [], refl, refl))

send_message-Released_example :
    Released [] (send_message (codes "hello") (with_stream (packet response_message)))
send_message-Released_example =
    send_message-Released (codes "hello") (with_stream (packet response_message)) (omega arith)

exchange-packet_example :
    Ends
      (Call.close 4
        ∷ Call.free (pos 5)
        ∷ Call.print response_message
        ∷ Call.read 4 26
        ∷ Call.alloc 27
        ∷ Call.read 4 8
        ∷ Call.write 4 (packet (codes "hello"))
        ∷ [])
      []
      (exchange 4 (codes "hello") (with_stream (packet response_message)))
exchange-packet_example =
    exchange-packet 4 100 100 (codes "hello") response_message []
      (with_stream (packet response_message)) (omega arith) refl refl refl (omega arith) refl refl
      (omega arith)
