-- ===== src/EpollEcho/Safety.antt =====
-- Each handler's data belongs to its connection, and the handlers keep it so.
use mathlib.Core.Option
use mathlib.Core.Path.{subst}
use os_study_code.Base.{
  ℕ, ◌+◌, ◌<◌, ◌≡◌, ◌≢◌, refl, sym, ap, ◌∙◌, inl, inr, Bool, true, false, Option, some, arith, ◌==◌,
  Bool-cases, get_elem?, set, get_elem?-set_self, get_elem?-set_ne, get_elem?-some, eq_of_some,
  eq_of_==, leb,
}
use os_study_code.Base.Int.{pos}
use os_study_code.Comm.{
  Comm, Fde, blank, with_fde, epoll_set_events, comm_close, comm_update_read_handler,
  comm_update_write_handler, comm_set_timeout, timed, record_close,
}
use os_study_code.Comm.Interest.{Mirror}
use os_study_code.Comm.Updates.{epoll_set_events-Watching, Mirror-table, with_fde-blank}
use os_study_code.EpollEcho.{ConnectStat, do_timeout}

-- The data is allocated, for this descriptor, which is not 0.
abbrev pub Owner : (ℕ → Option ConnectStat) → (fd data_ptr : ℕ) → Type 0
Owner stats fd p = (0 < fd) × (p ≢ 0) × ((x : ConnectStat) × (stats p ≡ some x) × (x.fd ≡ fd))

abbrev pub Points : (ℕ → Option ConnectStat) → (fd handler data_ptr : ℕ) → Type 0
Points stats fd h p = h ≢ 0 → Owner stats fd p

pub record Owned (stats : ℕ → Option ConnectStat) (fd : ℕ) (e : Fde) : Type 0 where
  pub reads : Points stats fd e.read_handler e.read_data
  pub writes : Points stats fd e.write_handler e.write_data
  pub times : Points stats fd e.timeout_handler e.timeout_data

pub record Good (stats : ℕ → Option ConnectStat) (c : Comm) : Type 0 where
  pub mirror : Mirror c
  pub owned : (fd : ℕ) (e : Fde) → get_elem? c.fd_table fd ≡ some e → Owned stats fd e

-- The result of a function on the tables.
abbrev pub Leads : (ℕ → Option ConnectStat) → Comm → Option Comm → Type 0
Leads stats c r = (d : Comm) × (r ≡ some d) × Good stats d × (d.biggest_fd ≡ c.biggest_fd)

module _ (stats : ℕ → Option ConnectStat) where
  set-Owned :
      (c : Comm) (fd : ℕ) (e e' : Fde)
      → Good stats c
      → get_elem? c.fd_table fd ≡ some e
      → Owned stats fd e'
      → (a : ℕ) (x : Fde) → get_elem? (set c.fd_table fd e') a ≡ some x
      → Owned stats a x
  set-Owned c fd e e' g at_fd own a x h = elim (Bool-cases (fd == a)) [
    | inl hit ↦
        subst (λ n. Owned stats n x) (eq_of_== fd a hit)
          (subst (λ y. Owned stats fd y)
            (eq_of_some (
              sym (get_elem?-set_self c.fd_table fd e' e at_fd)
              ∙ subst (λ n. get_elem? (set c.fd_table fd e') n ≡ some x) (sym (eq_of_== fd a hit))
                  h))
            own)
    | inr miss ↦ g.owned a x (sym (get_elem?-set_ne c.fd_table fd a e' (ground arith)) ∙ h)
  ]

  update-Good :
      (c : Comm) (fd : ℕ) (f : Fde → Fde) (need_read need_write : Bool)
      → Good stats c
      → fd < c.biggest_fd
      → ((e : Fde) → Owned stats fd e → Owned stats fd (f e))
      → Leads stats c
          (Option.bind (with_fde c fd f) (λ x. epoll_set_events x fd need_read need_write))
  unfolding Option.bind with_fde
  update-Good c fd f need_read need_write g lt keeps =
      let (e, at_fd) = get_elem?-some c.fd_table fd (omega (arith, g.mirror.tables.0)) in
      let c' = record c { fd_table = set c.fd_table fd (f e) } in
      let (d, eq, w, table) =
        epoll_set_events-Watching c' fd need_read need_write (Mirror-table c fd (f e) g.mirror)
          lt in
      (
        d,
        rw at_fd eq,
        record {
          mirror = w.mirror;
          owned = λ a x h.
              set-Owned c fd e (f e) g at_fd (keeps e (g.owned fd e at_fd)) a x
                (ap (λ t. get_elem? t a) (sym table) ∙ h);
        },
        w.same_size,
      )

  pub read_handler-Good :
      (c : Comm) (fd h p : ℕ)
      → Good stats c
      → fd < c.biggest_fd
      → Points stats fd h p
      → Leads stats c (comm_update_read_handler c fd h p)
  unfolding comm_update_read_handler
  read_handler-Good c fd h p g lt points =
      update-Good c fd (λ e. record e { read_handler = h; read_data = p }) true false g lt
        (λ e own. record { reads = points; writes = own.writes; times = own.times })

  pub write_handler-Good :
      (c : Comm) (fd h p : ℕ)
      → Good stats c
      → fd < c.biggest_fd
      → Points stats fd h p
      → Leads stats c (comm_update_write_handler c fd h p)
  unfolding comm_update_write_handler
  write_handler-Good c fd h p g lt points =
      update-Good c fd (λ e. record e { write_handler = h; write_data = p }) false true g lt
        (λ e own. record { reads = own.reads; writes = points; times = own.times })

  pub set_timeout-Good :
      (c : Comm) (fd n p : ℕ)
      → Good stats c
      → fd < c.biggest_fd
      → Points stats fd do_timeout p
      → Leads stats c (comm_set_timeout c fd (pos n) do_timeout p)
  unfolding comm_set_timeout timed
  set_timeout-Good c fd n p g lt points =
      let (e, at_fd) = get_elem?-some c.fd_table fd (omega (arith, g.mirror.tables.0)) in
      let e' = record e {
        timeout_handler = do_timeout;
        timeout_data = p;
        timeout = c.curtime + n;
      } in
      let own = g.owned fd e at_fd in
      let inside : leb c.biggest_fd fd ≡ false = ground arith in
      (
        record c { fd_table = set c.fd_table fd e' },
        rw inside (rw at_fd refl),
        record {
          mirror = Mirror-table c fd e' g.mirror;
          owned =
              set-Owned c fd e e' g at_fd
                (record { reads = own.reads; writes = own.writes; times = points });
        },
        refl,
      )

  pub close-Good :
      (c : Comm) (fd : ℕ)
      → Good stats c
      → 0 < fd
      → fd < c.biggest_fd
      → (d : Comm) × (comm_close c fd ≡ some d)
        × Good stats d
        × (get_elem? d.fd_table fd ≡ some blank)
        × (d.biggest_fd ≡ c.biggest_fd)
  unfolding comm_close
  close-Good c fd g real lt =
      let (e, at_fd) = get_elem?-some c.fd_table fd (omega (arith, g.mirror.tables.0)) in
      let c' = record c { fd_table = set c.fd_table fd blank } in
      let (d, eq, w, table) =
        epoll_set_events-Watching c' fd false false (Mirror-table c fd blank g.mirror) lt in
      let real' : (fd == 0) ≡ false = ground arith in
      let m = w.mirror in
      (
        record_close fd d,
        rw real' (rw (with_fde-blank c fd e at_fd) (rw eq refl)),
        record {
          mirror = record {
            same = m.same;
            accepts = m.accepts;
            counted = m.counted;
            tables = m.tables;
          };
          owned = λ a x h.
              set-Owned c fd e blank g at_fd unused a x (ap (λ t. get_elem? t a) (sym table) ∙ h);
        },
        ap (λ t. get_elem? t fd) table ∙ get_elem?-set_self c.fd_table fd blank e at_fd,
        w.same_size,
      )
    where
      unused : Owned stats fd blank
      unused = record {
        reads = λ some_handler. absurd (some_handler refl);
        writes = λ some_handler. absurd (some_handler refl);
        times = λ some_handler. absurd (some_handler refl);
      }
