-- ===== src/Http/Requests.antt =====
-- Requests that arrive with one `read`.
use os_study_code.Base.{ℕ, ◌≤◌, ◌≡◌, refl, ap, some, List, [], ◌∷◌, ◌++◌, length, arith}
use os_study_code.Base.Int.{pos}
use os_study_code.Sys.{Sys, done, fault, Call, invoke, log, ◌>>=◌}
use os_study_code.Sys.Runs.{made, recv_into_all}
use os_study_code.Http.{ConnectStat, commit, blank_line, do_http_request, request_read, rearm}
use os_study_code.Http.Text.{until_nul, strstr, is_digit}
use os_study_code.Http.Form.{Fields, Stops, form, post_commit, parse-form, Overruns, parse-none}

module _ (stat : ConnectStat) (headers : List ℕ) (k : ℕ) (s : Sys)
    (arrives : s.stream ≡ post_commit ++ headers) (plain : until_nul headers ≡ headers)
    (comes : s.chunks s.tick ≡ some k) (le : length (post_commit ++ headers) ≤ k)
    (short : length (post_commit ++ headers) ≤ 4095) where
  text_back : until_nul (post_commit ++ headers) ≡ post_commit ++ headers
  text_back = ap (λ l. post_commit ++ l) plain

  -- The state after the read.
  abbrev after_read : Sys
  after_read = record (log (Call.read stat.fd 4095) (pos (length (post_commit ++ headers))) s) {
    stream = [];
  }

  -- A request that posts the form to /commit, without a NUL and of at most 4095 bytes, whose
  -- first blank line is the one before the form, with a name of 1 to 63 letters and digits and an
  -- age of 1 to 63 digits that no other digit follows: if it arrives with one read, the
  -- connection has that name and age and the commit handler, and waits for EPOLLOUT.
  pub do_http_request-form :
      (name age rest : List ℕ)
      → Fields name age
      → Stops is_digit rest
      → strstr (post_commit ++ headers) blank_line ≡ some (form name age rest)
      → ((do_http_request stat s).0
          ≡ done (some (record stat { name = name; age = age; handler = some commit; events = 4 })))
        × (made (do_http_request stat s).1
            ≡ Call.epoll_ctl 3 stat.fd 4 ∷ Call.read stat.fd 4095 ∷ made s)
  unfolding do_http_request request_read rearm invoke
  do_http_request-form name age rest f stops at =
      rw
        (
          recv_into_all stat.fd 4095 4096 k (post_commit ++ headers) s comes le short (omega arith)
              arrives,
          ◌>>=◌,
        )
        (rw text_back (rw (parse-form headers name age rest stat f stops at) (refl, refl)))

  -- A request that posts to /commit, without a NUL and of at most 4095 bytes, that arrives with
  -- one read and has no blank line or a name of 64 or more letters and digits makes the server
  -- read a null pointer or store outside the array.
  pub do_http_request-fault : Overruns (post_commit ++ headers) → (do_http_request stat s).0 ≡ fault
  unfolding do_http_request request_read
  do_http_request-fault bad =
      rw
        (
          recv_into_all stat.fd 4095 4096 k (post_commit ++ headers) s comes le short (omega arith)
              arrives,
          ◌>>=◌,
        )
        (rw text_back (rw (parse-none headers stat bad) refl))
