-- ===== src/Http/Events.antt =====
-- The events of a connection: no handler that is NULL is called, and what is held is given back.
use mathlib.Core.Path.{subst}
use os_study_code.Base.{
  eq_of_some, eq_of_==, drop, ℕ, ◌+◌, ◌/◌, ◌%◌, ◌≤◌, ◌≡◌, refl, sym, ◌∙◌, ◌≢◌, true, false, Option,
  none, some, List, [], ◌∷◌, ◌++◌, take, length, length-append, length-take, ltb, ◌==◌,
  if◌then◌else◌, arith, Bool-cases, Option-cases, inl, inr,
}
use os_study_code.Base.Int.{ℤ, pos, negsuc}
use os_study_code.Sys.{Sys, Outcome, done, exited, fault, Call, invoke, log, got, within, ◌>>=◌}
use os_study_code.Sys.Held.{Resource, fd, memory, held, is_null, give_back}
use os_study_code.Sys.Runs.{recv_into-none, recv_into-some}
use os_study_code.Http.{
  blank_line, connect_handle, Page, welcome, commit, ConnectStat, parse, parsed, request_read,
  do_http_request, rearm, send_page, respond, main_header, content_length, commit_page,
  do_http_respone, handle_event,
}
use os_study_code.Http.Text.{until_nul, decimal, length-decimal}
use os_study_code.Http.Fields.{Short, Parsed, parse-Parsed}

-- A connection that asks for EPOLLOUT has a handler.
pub record Ready (stat : ConnectStat) : Type 0 where
  pub short : Short stat
  pub handled : stat.events ≡ 4 → stat.handler ≢ none

abbrev pub holding : ConnectStat → List Resource → List Resource
holding stat qs = memory stat.address ∷ fd stat.fd ∷ qs

-- The connection is closed and given back, or ready for the next event. No fault.
abbrev pub Handled : List Resource → Outcome (Option ConnectStat) × Sys → Type 0
Handled qs (done none, t) = held t.calls ≡ qs
Handled qs (done (some stat), t) =
    Ready stat × (is_null stat.address ≡ false) × (held t.calls ≡ holding stat qs)
Handled qs (exited code, t) = ⊥
Handled qs (fault, t) = ⊥

rearm-Handled :
    (events : ℕ) (stat : ConnectStat) (qs : List Resource) (t : Sys)
    → Short stat
    → (events ≡ 4 → stat.handler ≢ none)
    → is_null stat.address ≡ false
    → held t.calls ≡ holding stat qs
    → Handled qs (rearm events stat t)
unfolding rearm invoke
rearm-Handled events stat qs t short handled given h =
    (record { short = record { name = short.name; age = short.age }; handled = handled }, given, h)

parsed-Handled :
    (stat : ConnectStat) (o : Option ConnectStat) (qs : List Resource) (t : Sys)
    → Parsed stat o
    → o ≢ none
    → is_null stat.address ≡ false
    → held t.calls ≡ holding stat qs
    → Handled qs (parsed o t)
parsed-Handled stat none qs t p some_stat given h = absurd (some_stat refl)
parsed-Handled stat (some stat') qs t (short, same, handled) some_stat given h =
    rearm-Handled 4 stat' qs t short (λ e. handled) (rw same.address given)
      (h ∙ sym (rw same.address (rw same.fd refl)))

both_back :
    (p : ℤ) (c : ℕ) (have qs : List Resource)
    → is_null p ≡ false
    → have ≡ memory p ∷ fd c ∷ qs
    → (if is_null p then give_back (fd c) have else give_back (memory p) (give_back (fd c) have))
      ≡ qs
both_back p c have qs given h = rw (h, given) (ground arith)

-- What arrives is a request that the parser gets through.
abbrev pub Parses : ConnectStat → Sys → Type 0
Parses stat s =
    (k : ℕ) → s.chunks s.tick ≡ some k → parse (until_nul (got 4095 k s.stream)) stat ≢ none

request_read-Handled :
    (stat : ConnectStat) (b : Option (List ℕ)) (qs : List Resource) (t : Sys)
    → Ready stat
    → is_null stat.address ≡ false
    → ((bytes : List ℕ) → b ≡ some bytes → parse (until_nul bytes) stat ≢ none)
    → held t.calls ≡ holding stat qs
    → Handled qs (request_read stat b t)
unfolding request_read invoke
request_read-Handled stat none qs t ready given parses h = (ready, given, h)
request_read-Handled stat (some []) qs t ready given parses h =
    both_back stat.address stat.fd (held t.calls) qs given h
request_read-Handled stat (some (x ∷ xs)) qs t ready given parses h =
    parsed-Handled stat (parse (until_nul (x ∷ xs)) stat) qs t
      (parse-Parsed (until_nul (x ∷ xs)) stat ready.short) (parses (x ∷ xs) refl) given h

do_http_request-Handled :
    (stat : ConnectStat) (qs : List Resource) (s : Sys)
    → Ready stat
    → is_null stat.address ≡ false
    → Parses stat s
    → held s.calls ≡ holding stat qs
    → Handled qs (do_http_request stat s)
unfolding do_http_request
do_http_request-Handled stat qs s ready given parses h = elim (Option-cases (s.chunks s.tick)) [
  | inl fails ↦
      rw (recv_into-none stat.fd 4095 4096 s fails, ◌>>=◌)
        (request_read-Handled stat none qs (log (Call.read stat.fd 4095) (negsuc 0) s) ready given
          (λ bytes e. cc) h)
  | inr (k, comes) ↦
      let bytes = got 4095 k s.stream in
      rw (recv_into-some stat.fd 4095 4096 k s comes (omega arith), ◌>>=◌)
        (request_read-Handled stat (some bytes) qs
          (record (log (Call.read stat.fd 4095) (pos (length bytes)) s) {
            stream = drop (length bytes) s.stream;
          })
          ready given
          (λ other e. subst (λ l. parse (until_nul l) stat ≢ none) (eq_of_some e) (parses k comes))
          h)
]

-- The buffer of a response has room for a page of 3900 bytes.
send_page-Handled :
    (len : ℕ) (content : List ℕ) (stat : ConnectStat) (qs : List Resource) (t : Sys)
    → length content ≤ 3900
    → Short stat
    → is_null stat.address ≡ false
    → held t.calls ≡ holding stat qs
    → Handled qs (send_page len content stat t)
unfolding send_page invoke
send_page-Handled len content stat qs t le short given h =
    let page = main_header ++ (content_length len ++ content) in
    let fits : ltb (length page) 4096 ≡ true = ground (
      arith,
      length-append (decimal len ++ blank_line) content,
      length-append (decimal len) blank_line,
      length-decimal len,
    ) in
    rw (fits, within, ◌>>=◌)
      (rearm-Handled 1 stat qs (log (Call.write stat.fd page) (t.results t.tick) t) short
        (λ e. absurd (omega arith)) given h)

module _ (welcome_content commit_head commit_middle commit_tail : List ℕ)
    (welcome_fits : length welcome_content ≤ 3900)
    (commit_fits : length commit_head + length commit_middle + length commit_tail ≤ 3700) where
  length-commit_page :
      (stat : ConnectStat)
      → Short stat
      → length (commit_page welcome_content commit_head commit_middle commit_tail stat) ≤ 3900
  length-commit_page stat short = omega (
    arith,
    length-append commit_head (stat.name ++ (commit_middle ++ (stat.age ++ commit_tail))),
    length-append stat.name (commit_middle ++ (stat.age ++ commit_tail)),
    length-append commit_middle (stat.age ++ commit_tail),
    length-append stat.age commit_tail,
    commit_fits,
  )

  respond-Handled :
      (page : Option Page) (stat : ConnectStat) (qs : List Resource) (t : Sys)
      → page ≢ none
      → Short stat
      → is_null stat.address ≡ false
      → held t.calls ≡ holding stat qs
      → Handled qs (respond welcome_content commit_head commit_middle commit_tail page stat t)
  respond-Handled none stat qs t some_page short given h = absurd (some_page refl)
  respond-Handled (some welcome) stat qs t some_page short given h =
      send_page-Handled (length welcome_content) welcome_content stat qs t welcome_fits short given
        h
  respond-Handled (some commit) stat qs t some_page short given h =
      let page = commit_page welcome_content commit_head commit_middle commit_tail stat in
      send_page-Handled (length page) (take 4095 page) stat qs t
        (omega (arith, length-take 4095 page, length-commit_page stat short)) short given h

  -- For a connection that is ready, if the kernel reports EPOLLOUT only where it was asked for,
  -- the parser gets through what arrives, and the pages have at most 3900 bytes (without the two
  -- strings, at most 3700), handling an event makes no fault: no handler that is NULL is called
  -- and no buffer is overrun; the connection is ready again, or closed with its memory freed
  -- once.
  pub handle_event-Handled :
      (revents : ℕ) (stat : ConnectStat) (qs : List Resource) (s : Sys)
      → Ready stat
      → is_null stat.address ≡ false
      → Parses stat s
      → (revents / 4 % 2 ≡ 1 → stat.events ≡ 4)
      → held s.calls ≡ holding stat qs
      → Handled qs
          (handle_event welcome_content commit_head commit_middle commit_tail revents stat s)
  unfolding handle_event do_http_respone
  handle_event-Handled revents stat qs s ready given parses asked h =
      elim (Bool-cases (revents % 2 == 1)) [
        | inl input ↦ rw input (do_http_request-Handled stat qs s ready given parses h)
        | inr quiet ↦ rw quiet (elim (Bool-cases (revents / 4 % 2 == 1)) [
          | inl output ↦ rw output (
              respond-Handled stat.handler stat qs s
                (ready.handled (asked (eq_of_== (revents / 4 % 2) 1 output))) ready.short given h)
          | inr idle ↦ rw idle (ready, given, h)
        ])
      ]

pub connect_handle-Handled :
    (new_fd : ℕ) (qs : List Resource) (s : Sys)
    → is_null (s.results s.tick) ≡ false
    → held s.calls ≡ fd new_fd ∷ qs
    → Handled qs (connect_handle new_fd s)
unfolding connect_handle invoke
connect_handle-Handled new_fd qs s given h = rw given (
  record {
    short = record { name = omega arith; age = omega arith };
    handled = λ e. absurd (omega arith);
  },
  given,
  rw (given, h) refl,
)
