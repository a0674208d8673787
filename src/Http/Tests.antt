-- ===== src/Http/Tests.antt =====
-- The server at concrete requests.
use os_study_code.Base.{ℕ, ◌≡◌, refl, inl, some, none, List, [], ◌∷◌, ◌++◌, arith}
use os_study_code.Base.Int.{pos}
use os_study_code.Base.Text.{codes}
use os_study_code.Sys.{Sys, Call, done, fault}
use os_study_code.Sys.Runs.{made}
use os_study_code.Http.{ConnectStat, commit, do_http_request, handle_event}
use os_study_code.Http.Text.{strstr, decimal}
use os_study_code.Http.Form.{form, post_commit, Fields}
use os_study_code.Http.Requests.{do_http_request-form, do_http_request-fault}
use os_study_code.Http.Events.{Handled, handle_event-Handled}

abbrev with_stream : List ℕ → Sys
with_stream bytes = record {
  results = λ n. pos 5;
  chunks = λ n. some 4095;
  tick = 0;
  stream = bytes;
  calls = (Call.alloc 160, pos 5) ∷ (Call.accept 3, pos 4) ∷ [];
}

abbrev client : ConnectStat
client = record {
  address = pos 5;
  fd = 4;
  name = [];
  age = [];
  events = 1;
  status = 0;
  handler = none;
}

abbrev tail_of : List ℕ
tail_of = codes " HTTP/1.0" ++ form (codes "Ann") (codes "31") []

decimal_307 : decimal 307 ≡ codes "307"
unfolding decimal
decimal_307 = refl

Ann-Fields : Fields (codes "Ann") (codes "31")
Ann-Fields = record {
  plain_name = (refl, (refl, (refl, tt)));
  some_name = omega arith;
  short_name = omega arith;
  plain_age = (refl, (refl, tt));
  some_age = omega arith;
  short_age = omega arith;
}

do_http_request-form_example :
    ((do_http_request client (with_stream (post_commit ++ tail_of))).0
      ≡ done (
          some (record client {
            name = codes "Ann";
            age = codes "31";
            handler = some commit;
            events = 4;
          })))
    × (made (do_http_request client (with_stream (post_commit ++ tail_of))).1
        ≡ Call.epoll_ctl 3 4 4 ∷ Call.read 4 4095 ∷ Call.alloc 160 ∷ Call.accept 3 ∷ [])
unfolding strstr
do_http_request-form_example =
    do_http_request-form client tail_of 4095 (with_stream (post_commit ++ tail_of)) refl refl refl
      (omega arith) (omega arith) (codes "Ann") (codes "31") [] Ann-Fields tt refl

do_http_request-fault_example :
    (do_http_request client (with_stream (post_commit ++ codes " HTTP/1.0"))).0 ≡ fault
unfolding strstr
do_http_request-fault_example =
    do_http_request-fault client (codes " HTTP/1.0") 4095
      (with_stream (post_commit ++ codes " HTTP/1.0")) refl refl refl (omega arith) (omega arith)
      (inl refl)

-- A client that waits for the answer to its form.
abbrev waiting : ConnectStat
waiting = record client { name = codes "Ann"; age = codes "31"; events = 4; handler = some commit }

abbrev no_input : Sys
no_input = record (with_stream []) { chunks = λ n. none }

handle_event-Handled_example :
    Handled [] (handle_event (codes "hi") (codes "a") (codes "b") (codes "c") 4 waiting no_input)
handle_event-Handled_example =
    handle_event-Handled (codes "hi") (codes "a") (codes "b") (codes "c") (omega arith)
      (omega arith) 4 waiting [] no_input
      (record { short = record { name = omega arith; age = omega arith }; handled = λ e f. cc })
      refl (λ k e f. cc) (λ e. refl) refl
