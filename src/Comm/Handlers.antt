-- ===== src/Comm/Handlers.antt =====
-- The loops over descriptors that call handlers.

use mathlib.Core.Path.{subst}
use os_study_code.Base.{
  ℕ, ◌<◌, ◌≡◌, refl, sym, ◌∙◌, ◌≢◌, inl, inr, false, ◌||◌, Option, some, List, [], ◌∷◌, arith, ◌==◌,
  Bool-cases, if◌then◌else◌, get_elem?, get_elem?-some,
}
use os_study_code.Comm.{
  Fde, Comm, comm_close, comm_call_handlers, Wait, failed, ready, Outcome, comm_ok, comm_error,
  comm_timeout, ignore_errno, dispatch, do_epoll_select, clear_out, clear_in, fire,
}
use os_study_code.Comm.Interest.{Mirror}
use os_study_code.Comm.Updates.{Closed, comm_close-Closed}

module _ (run : ℕ → ℕ → ℕ → Comm → Option Comm) where
  -- On a consistent state, if the read handler of a descriptor above 0 is called for an event and
  -- closes the descriptor, comm_call_handlers calls no other handler for it: what it leaves is
  -- what comm_close leaves.
  pub comm_call_handlers-close :
      (c : Comm) (fd read_event write_event : ℕ) (e : Fde)
      → Mirror c
      → 0 < fd
      → fd < c.biggest_fd
      → get_elem? c.fd_table fd ≡ some e
      → e.read_handler ≢ 0
      → read_event ≢ 0
      → run e.read_handler fd e.read_data c ≡ comm_close c fd
      → (d : Comm) × (comm_call_handlers run c fd read_event write_event ≡ some d) × Closed c fd d
  unfolding comm_call_handlers
  comm_call_handlers-close c fd read_event write_event e m real lt at_fd handled event closes =
      let (d, eq, w) = comm_close-Closed c fd m real lt in
      let fires : (e.read_handler == 0 || read_event == 0) ≡ false = ground arith in
      (d, rw at_fd (rw fires (rw (closes ∙ eq) (rw w.emptied refl))), w)

  -- What the event loop needs of the handlers: each one runs without a fault on a consistent state
  -- and leaves one, with tables of the same size.
  abbrev pub Keeps : Type 0
  Keeps =
      (h fd p : ℕ) (c : Comm)
      → Mirror c
      → fd < c.biggest_fd
      → (d : Comm) × (run h fd p c ≡ some d) × Mirror d × (d.biggest_fd ≡ c.biggest_fd)

  abbrev pub InRange : ℕ → List (ℕ × ℕ) → Type 0
  InRange n [] = Unit
  InRange n ((fd, events) ∷ es) = (fd < n) × InRange n es

  fire_lem :
      Keeps
      → (h p event fd : ℕ) (c : Comm) → Mirror c
      → fd < c.biggest_fd
      → (d : Comm) × (fire run h p event fd c ≡ some d) × Mirror d × (d.biggest_fd ≡ c.biggest_fd)
  fire_lem keeps h p event fd c m lt = elim (Bool-cases (h == 0 || event == 0)) [
    | inl skip ↦ (c, rw skip refl, m, refl)
    | inr call ↦ let (d, eq, w, same) = keeps h fd p c m lt in (d, rw call eq, w, same)
  ]

  comm_call_handlers-Mirror :
      Keeps
      → (c : Comm) (fd read_event write_event : ℕ) → Mirror c
      → fd < c.biggest_fd
      → (d : Comm) × (comm_call_handlers run c fd read_event write_event ≡ some d)
        × Mirror d
        × (d.biggest_fd ≡ c.biggest_fd)
  unfolding comm_call_handlers
  comm_call_handlers-Mirror keeps c fd r w m lt =
      let (e, at_fd) = get_elem?-some c.fd_table fd (omega (arith, m.tables.0)) in
      let (d, eq, m', same) = fire_lem keeps e.read_handler e.read_data r fd c m lt in
      let (f, at_fd') = get_elem?-some d.fd_table fd (omega (arith, m'.tables.0)) in
      let (d', eq', m'', same') =
        fire_lem keeps f.write_handler f.write_data w fd d m' (omega arith) in
      (d', rw at_fd (rw eq (rw at_fd' eq')), m'', same' ∙ same)

  dispatch-Mirror :
      Keeps
      → (es : List (ℕ × ℕ)) (c : Comm) → Mirror c
      → InRange c.biggest_fd es
      → (d : Comm) × (dispatch run es c ≡ some d) × Mirror d × (d.biggest_fd ≡ c.biggest_fd)
  unfolding dispatch
  dispatch-Mirror keeps [] c m within = (c, refl, m, refl)
  dispatch-Mirror keeps ((fd, events) ∷ es) c m within =
      let (d, eq, m', same) =
        comm_call_handlers-Mirror keeps c fd (clear_out events) (clear_in events) m within.0 in
      let (d', eq', m'', same') =
        dispatch-Mirror keeps es d m' (subst (λ n. InRange n es) (sym same) within.1) in
      (d', rw eq eq', m'', same' ∙ same)

  -- What the code may answer to a result of `epoll_wait`.
  abbrev pub outcome_of : Wait → Outcome
  outcome_of (failed errno now) = if ignore_errno errno then comm_ok else comm_error
  outcome_of (ready []) = comm_timeout
  outcome_of (ready (e ∷ es)) = comm_ok

  abbrev pub WaitInRange : ℕ → Wait → Type 0
  WaitInRange n (failed errno now) = Unit
  WaitInRange n (ready es) = InRange n es

  -- If each handler runs without a fault and keeps the state consistent, and epoll_wait reports
  -- descriptors of the table only, then do_epoll_select runs without a fault, keeps the state
  -- consistent, and answers COMM_TIMEOUT if nothing is ready, COMM_OK if something is or the
  -- error is one to ignore, and COMM_ERROR for other errors.
  pub do_epoll_select-Mirror :
      Keeps
      → (w : Wait) (c : Comm) → Mirror c
      → WaitInRange c.biggest_fd w
      → (d : Comm) × (do_epoll_select run w c ≡ some (outcome_of w, d))
        × Mirror d
        × (d.biggest_fd ≡ c.biggest_fd)
  unfolding do_epoll_select
  do_epoll_select-Mirror keeps (failed errno now) c m within = (
    record c { curtime = now },
    refl,
    record { same = m.same; accepts = m.accepts; counted = m.counted; tables = m.tables },
    refl,
  )
  do_epoll_select-Mirror keeps (ready []) c m within = (c, refl, m, refl)
  do_epoll_select-Mirror keeps (ready (e ∷ es)) c m within =
      let (d, eq, m', same) = dispatch-Mirror keeps (e ∷ es) c m within in (d, rw eq refl, m', same)
