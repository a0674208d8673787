-- ===== src/Comm/Calls.antt =====
-- Which handlers `do_epoll_select` calls.
use mathlib.Core.Option
use os_study_code.Base.{
  ℕ, ◌<◌, ◌≡◌, refl, ap, ◌∙◌, inl, inr, Bool, false, ◌||◌, Option, none, some, List, [], ◌∷◌, ◌++◌,
  arith, ◌==◌, if◌then◌else◌, Bool-cases, Option-cases, get_elem?, get_elem?-some, length,
}
use os_study_code.Comm.{
  Fde, Comm, comm_call_handlers, Wait, failed, ready, Outcome, comm_ok, comm_error, comm_timeout,
  ignore_errno, dispatch, do_epoll_select, clear_out, clear_in, fire,
}

-- A call: the handler, the descriptor and the data.
abbrev pub Called : Type 0
Called = ℕ × ℕ × ℕ

-- The events are bits, EPOLLIN 1 and EPOLLOUT 4: the handler for reading is called for all but
-- EPOLLOUT alone, the one for writing for all but EPOLLIN alone.
abbrev pub for_reading : Fde → (fd events : ℕ) → List Called
for_reading e fd events =
    if e.read_handler == 0 || (events == 0 || events == 4)
    then []
    else (e.read_handler, fd, e.read_data) ∷ []

abbrev pub for_writing : Fde → (fd events : ℕ) → List Called
for_writing e fd events =
    if e.write_handler == 0 || (events == 0 || events == 1)
    then []
    else (e.write_handler, fd, e.write_data) ∷ []

-- The calls for an entry, before others.
abbrev pub called_at : Option Fde → (fd events : ℕ) → List Called → List Called
called_at none fd events cs = []
called_at (some e) fd events cs = for_reading e fd events ++ (for_writing e fd events ++ cs)

-- The calls for what is reported, on a table.
abbrev pub called : List Fde → List (ℕ × ℕ) → List Called
called table [] = []
called table ((fd, events) ∷ es) = called_at (get_elem? table fd) fd events (called table es)

out_alone : (events : ℕ) → (clear_out events == 0) ≡ (events == 0 || events == 4)
out_alone events = ground arith

in_alone : (events : ℕ) → (clear_in events == 0) ≡ (events == 0 || events == 1)
in_alone events = ground arith

abbrev pub InTable : List Fde → List (ℕ × ℕ) → Type 0
InTable table [] = Unit
InTable table ((fd, events) ∷ es) = (fd < length table) × InTable table es

-- EINTR, EAGAIN, ERESTART, EALREADY and EINPROGRESS pass for nothing.
abbrev pub passing : List ℕ
passing = 4 ∷ 11 ∷ 85 ∷ 114 ∷ 115 ∷ []

bind_assoc :
    (o : Option Comm) (f g : Comm → Option Comm)
    → Option.bind (Option.bind o f) g ≡ Option.bind o (λ d. Option.bind (f d) g)
unfolding Option.bind
bind_assoc none f g = refl
bind_assoc (some d) f g = refl

abbrev pub one_of : ℕ → List ℕ → Bool
one_of e [] = false
one_of e (x ∷ xs) = (e == x) || one_of e xs

passes : (e : ℕ) → ignore_errno e ≡ one_of e passing
unfolding ignore_errno
passes e = ground arith

abbrev pub reported : List (ℕ × ℕ) → Outcome
reported [] = comm_timeout
reported (e ∷ es) = comm_ok

abbrev pub InWait : List Fde → Wait → Type 0
InWait table (failed errno now) = Unit
InWait table (ready es) = InTable table es

module _ (run : ℕ → ℕ → ℕ → Comm → Option Comm) where
  abbrev pub run_all : List Called → Comm → Option Comm
  run_all [] c = some c
  run_all ((h, fd, p) ∷ cs) c = Option.bind (run h fd p c) (run_all cs)

  -- The handlers leave the table as it is.
  abbrev pub Steady : Type 0
  Steady = (h fd p : ℕ) (c d : Comm) → run h fd p c ≡ some d → d.fd_table ≡ c.fd_table

  -- A call, or none, followed by more.
  fire-run_all :
      (h p event fd : ℕ) (quiet : Bool) (c : Comm) (cs : List Called) (k : Comm → Option Comm)
      → Steady
      → (event == 0) ≡ quiet
      → ((d : Comm) → d.fd_table ≡ c.fd_table → k d ≡ run_all cs d)
      → Option.bind (fire run h p event fd c) k
        ≡ run_all ((if h == 0 || quiet then [] else (h, fd, p) ∷ []) ++ cs) c
  unfolding Option.bind
  fire-run_all h p event fd quiet c cs k steady e after = elim (Bool-cases (h == 0 || quiet)) [
    | inl skip ↦ rw (e, skip) (after c refl)
    | inr call ↦
        rw (e, call)
          (elim (Option-cases (run h fd p c)) [
            | inl fails ↦ rw fails refl
            | inr (d, goes) ↦ rw goes (after d (steady h fd p c d goes))
          ])
  ]

  writing-run_all :
      (e : Fde) (fd events : ℕ) (d : Comm) (cs : List Called) (k : Comm → Option Comm)
      → Steady
      → get_elem? d.fd_table fd ≡ some e
      → ((f : Comm) → f.fd_table ≡ d.fd_table → k f ≡ run_all cs f)
      → Option.bind
          (Option.bind
            (get_elem? d.fd_table fd)
            (λ f. fire run f.write_handler f.write_data (clear_in events) fd d))
          k
        ≡ run_all (for_writing e fd events ++ cs) d
  unfolding Option.bind
  writing-run_all e fd events d cs k steady at after = rw at (
      fire-run_all e.write_handler e.write_data (clear_in events) fd (events == 0 || events == 1) d
        cs k steady (in_alone events) after)

  dispatch-called :
      (table : List Fde) (es : List (ℕ × ℕ)) (c : Comm)
      → Steady
      → InTable table es
      → c.fd_table ≡ table
      → dispatch run es c ≡ run_all (called table es) c
  unfolding dispatch comm_call_handlers
  dispatch-called table [] c steady within here = refl
  dispatch-called table ((fd, events) ∷ es) c steady within here =
      let (e, at) = get_elem?-some table fd within.0 in
      let at_fd : get_elem? c.fd_table fd ≡ some e = ap (λ l. get_elem? l fd) here ∙ at in
      let rest = for_writing e fd events ++ called table es in
      rw (at_fd, at)
        (bind_assoc (fire run e.read_handler e.read_data (clear_out events) fd c) _ _
          ∙ fire-run_all e.read_handler e.read_data (clear_out events) fd
              (events == 0 || events == 4) c rest _ steady (out_alone events)
              (λ d same.
                writing-run_all e fd events d (called table es) (dispatch run es) steady
                  (ap (λ l. get_elem? l fd) same ∙ at_fd)
                  (λ f same'. dispatch-called table es f steady within.1 (same' ∙ (same ∙ here)))))

  -- The answer, and the state after the calls.
  abbrev pub selected : Wait → Comm → Option (Outcome × Comm)
  selected (failed errno now) c =
      some (if one_of errno passing then comm_ok else comm_error, record c { curtime = now })
  selected (ready es) c = Option.map (λ d. (reported es, d)) (run_all (called c.fd_table es) c)

  -- Where epoll_wait reports descriptors of the table only and the handlers leave the table as it
  -- is, do_epoll_select is the same as calling, one after the other, for each descriptor reported
  -- and in this order, its read handler unless the event is EPOLLOUT alone, and its write handler
  -- unless it is EPOLLIN alone, each if it is not NULL and with its own data. It answers
  -- COMM_TIMEOUT if nothing is ready, COMM_OK if something is or the error is EINTR, EAGAIN,
  -- ERESTART, EALREADY or EINPROGRESS, and COMM_ERROR for others.
  pub do_epoll_select-called :
      (w : Wait) (c : Comm) → Steady → InWait c.fd_table w → do_epoll_select run w c ≡ selected w c
  unfolding do_epoll_select
  do_epoll_select-called (failed errno now) c steady within = rw (passes errno) refl
  do_epoll_select-called (ready []) c steady within = refl
  do_epoll_select-called (ready (e ∷ es)) c steady within =
      ap (Option.map (λ d. (comm_ok, d))) (dispatch-called c.fd_table (e ∷ es) c steady within refl)
