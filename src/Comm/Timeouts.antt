-- ===== src/Comm/Timeouts.antt =====
-- Timeouts: `commSetTimeout` and the loop of `checkTimeouts`.
use mathlib.Core.Option
use os_study_code.Base.{
  if◌then◌else◌, ℕ, zero, suc, ◌+◌, ◌≤◌, ◌<◌, ◌≡◌, refl, ◌≢◌, ◌⊎◌, inl, inr, true, false, ◌||◌,
  Option, none, some, arith, ◌==◌, ltb, Bool-cases, leb, set, get_elem?-set_self, length,
  get_elem?-some, get_elem?-beyond,
}
use os_study_code.Comm.{
  Comm, comm_close, check_fd, check_from, check_timeouts, comm_set_timeout, timed, with_fde,
}
use os_study_code.Base.Int.{pos}
use os_study_code.Comm.Interest.{Mirror}
use os_study_code.Comm.Updates.{comm_close-Closed, Mirror-table}
use os_study_code.Comm.Handlers.{Keeps}

module _ (run : ℕ → ℕ → ℕ → Comm → Option Comm) where
  close_null : (c : Comm) (fd : ℕ) → (fd == 0) ≡ true → comm_close c fd ≡ none
  unfolding comm_close
  close_null c fd null = rw null refl

  check_fd-beyond : (c : Comm) (fd : ℕ) → length c.fd_table ≤ fd → check_fd run c fd ≡ none
  unfolding check_fd
  check_fd-beyond c fd le = rw (get_elem?-beyond c.fd_table fd le) refl

  -- A round of `checkTimeouts` that does not fault keeps the tables.
  check_fd_lem :
      Keeps run
      → (c : Comm) (fd : ℕ) → Mirror c
      → fd < c.biggest_fd
      → (check_fd run c fd ≡ none)
        ⊎ ((d : Comm) × (check_fd run c fd ≡ some d) × Mirror d × (d.biggest_fd ≡ c.biggest_fd))
  unfolding check_fd with_fde
  check_fd_lem keeps c fd m lt =
      let (e, at_fd) = get_elem?-some c.fd_table fd (omega (arith, m.tables.0)) in
      elim (Bool-cases (e.timeout == 0 || ltb c.curtime e.timeout)) [
        | inl early ↦ inr (c, rw at_fd (rw early refl), m, refl)
        | inr expired ↦ elim (Bool-cases (e.timeout_handler == 0)) [
          | inl bare ↦ elim (Bool-cases (fd == 0)) [
            | inl null ↦ inl (rw at_fd (rw expired (rw bare (close_null c fd null))))
            | inr real ↦
                let (d, eq, w) = comm_close-Closed c fd m (ground arith) lt in
                inr (d, rw at_fd (rw expired (rw bare eq)), w.mirror, w.same_size)
          ]
          | inr set_up ↦
              let e' = record e { timeout_handler = 0 } in
              let c' = record c { fd_table = set c.fd_table fd e' } in
              let (d, eq, m', same) =
                keeps e.timeout_handler fd e.timeout_data c' (Mirror-table c fd e' m) lt in
              inr (d, rw at_fd (rw expired (rw set_up eq)), m', same)
        ]
      ]

  check_from-none :
      Keeps run
      → (rounds fd : ℕ) (c : Comm) → Mirror c
      → fd ≤ c.biggest_fd
      → c.biggest_fd < fd + rounds
      → check_from run rounds fd c ≡ none
  unfolding check_from
  check_from-none keeps zero fd c m le lt = ground arith
  check_from-none keeps (suc rounds) fd c m le lt = elim (Bool-cases (fd == c.biggest_fd)) [
    | inl last ↦ rw (check_fd-beyond c fd (ground (arith, m.tables.0))) refl
    | inr inside ↦ elim (check_fd_lem keeps c fd m (ground arith)) [
      | inl stop ↦ rw stop refl
      | inr (d, eq, m', same) ↦
          rw eq (check_from-none keeps rounds (fd + 1) d m' (ground arith) (ground arith))
    ]
  ]

  -- On a consistent state, where the table has Biggest_FD entries, no run of checkTimeouts ends
  -- without a fault if the handlers run without one: a round before faults, or the last round
  -- reads the entry Biggest_FD, which lies behind the table.
  pub check_timeouts-none : Keeps run → (c : Comm) → Mirror c → check_timeouts run c ≡ none
  unfolding check_timeouts
  check_timeouts-none keeps c m =
      check_from-none keeps (c.biggest_fd + 1) 0 c m (omega arith) (omega arith)

  -- On a consistent state, commSetTimeout of a descriptor below Biggest_FD, with a handler that
  -- is not NULL, a time that is not negative and an expiry after time 0, runs without a fault and
  -- keeps the state consistent. Until the expiry a round of checkTimeouts on the descriptor
  -- changes nothing; from then on it clears the timeout handler and calls it with its data.
  pub comm_set_timeout-check_fd :
      (c : Comm) (fd n handler data_ptr now : ℕ)
      → Mirror c
      → fd < c.biggest_fd
      → handler ≢ 0
      → 0 < c.curtime + n
      → (d : Comm) × (comm_set_timeout c fd (pos n) handler data_ptr ≡ some d)
        × Mirror d
        × (check_fd run (record d { curtime = now }) fd ≡ (
            if ltb now (c.curtime + n)
            then some (record d { curtime = now })
            else Option.bind
                (with_fde (record d { curtime = now }) fd (λ f. record f { timeout_handler = 0 }))
                (run handler fd data_ptr)))
  unfolding comm_set_timeout check_fd timed
  comm_set_timeout-check_fd c fd n handler data_ptr now m lt handled later =
      let (e, at_fd) = get_elem?-some c.fd_table fd (omega (arith, m.tables.0)) in
      let e' = record e {
        timeout_handler = handler;
        timeout_data = data_ptr;
        timeout = c.curtime + n;
      } in
      let at_d = get_elem?-set_self c.fd_table fd e' e at_fd in
      let inside : leb c.biggest_fd fd ≡ false = ground arith in
      let given : (handler == 0) ≡ false = ground arith in
      let ahead : (c.curtime + n == 0) ≡ false = ground arith in
      (
        record c { fd_table = set c.fd_table fd e' },
        rw inside (rw at_fd (rw given refl)),
        Mirror-table c fd e' m,
        rw at_d (rw ahead (rw given refl)),
      )
