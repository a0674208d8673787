-- ===== src/Comm/Updates.antt =====
-- `epollSetEvents` and the functions that call it keep the mirror.
use mathlib.Core.Option
use mathlib.Core.Path.{subst}
use os_study_code.Base.{
  List, inl, ℕ, zero, suc, ◌<◌, ◌≡◌, refl, ap, ◌∙◌, inl, inr, Bool, true, false, some, ◌∷◌, arith,
  ◌==◌, Bool-cases, if◌then◌else◌, get_elem?, set, get_elem?-set_self, length, length-set,
  replicate, eq_of_some, get_elem?-some, ltb,
}
use os_study_code.Comm.{
  Ctl, Fde, Comm, blank, events_of, epoll_set_events, with_fde, record_close, comm_close, comm_init,
  comm_update_read_handler, comm_update_write_handler,
}
use os_study_code.Comm.Interest.{
  interest, Mirror, busy, with_events, with_events-Mirror, interest-ctl_of,
}

-- Only the events of one descriptor change, to `events`; the mirror holds.
pub record Watching (c : Comm) (fd events : ℕ) (d : Comm) : Type 0 where
  pub mirror : Mirror d
  pub watched : (a : ℕ) → interest d.ctls a ≡ (if fd == a then events else interest c.ctls a)
  pub same_size : d.biggest_fd ≡ c.biggest_fd
  pub same_closed : d.closed ≡ c.closed

unchanged :
    (cs : List Ctl) (fd a e : ℕ)
    → interest cs fd ≡ e
    → interest cs a ≡ (if fd == a then e else interest cs a)
unchanged cs fd a e is = elim (Bool-cases (fd == a)) [
  | inl hit ↦ rw hit (subst (λ x. interest cs x ≡ e) (ground arith) is)
  | inr miss ↦ rw miss refl
]

-- Where epoll_state mirrors what the kernel was told, epollSetEvents of a descriptor below
-- Biggest_FD runs without a fault: afterwards the kernel watches just the events asked for, with
-- HUP and ERR if there are any, the calls of epoll_ctl are still all of a kind that the kernel
-- accepts, epoll_fds counts the descriptors with events, and no other descriptor changes.
pub epoll_set_events-Watching :
    (c : Comm) (fd : ℕ) (need_read need_write : Bool)
    → Mirror c
    → fd < c.biggest_fd
    → (d : Comm) × (epoll_set_events c fd need_read need_write ≡ some d)
      × Watching c fd (events_of need_read need_write) d
      × (d.fd_table ≡ c.fd_table)
unfolding epoll_set_events
epoll_set_events-Watching c fd need_read need_write m lt =
    let events = events_of need_read need_write in
    let (old, at_fd) = get_elem?-some c.epoll_state fd (omega (arith, m.tables.1)) in
    elim (Bool-cases (events == old)) [
      | inl keep ↦ (
        c,
        rw (at_fd, keep) refl,
        record {
          mirror = m;
          watched = λ a. unchanged c.ctls fd a events (m.same fd old at_fd ∙ ground arith);
          same_size = refl;
          same_closed = refl;
        },
        refl,
      )
      | inr change ↦ (
        with_events c fd events old,
        rw (at_fd, change) refl,
        record {
          mirror = with_events-Mirror c fd events old m at_fd (ground arith);
          watched = interest-ctl_of fd events old c.ctls;
          same_size = refl;
          same_closed = refl;
        },
        refl,
      )
    ]

pub Mirror-table :
    (c : Comm) (fd : ℕ) (e : Fde) → Mirror c → Mirror (record c { fd_table = set c.fd_table fd e })
Mirror-table c fd e m = record {
  same = m.same;
  accepts = m.accepts;
  counted = m.counted;
  tables = (length-set c.fd_table fd e ∙ m.tables.0, m.tables.1);
}

-- A function that changes the table at a descriptor and then the events.
update_lem :
    (c : Comm) (fd : ℕ) (f : Fde → Fde) (need_read need_write : Bool)
    → Mirror c
    → fd < c.biggest_fd
    → (d : Comm) × (e : Fde) × (Option.bind
          (with_fde c fd f)
          (λ x. epoll_set_events x fd need_read need_write)
        ≡ some d)
      × Watching c fd (events_of need_read need_write) d
      × (get_elem? c.fd_table fd ≡ some e)
      × (get_elem? d.fd_table fd ≡ some (f e))
unfolding Option.bind with_fde
update_lem c fd f need_read need_write m lt =
    let (e, at_fd) = get_elem?-some c.fd_table fd (omega (arith, m.tables.0)) in
    let c' = record c { fd_table = set c.fd_table fd (f e) } in
    let (d, eq, w, table) =
      epoll_set_events-Watching c' fd need_read need_write (Mirror-table c fd (f e) m) lt in
    (
      d,
      e,
      rw (at_fd) eq,
      record {
        mirror = w.mirror;
        watched = w.watched;
        same_size = w.same_size;
        same_closed = w.same_closed;
      },
      at_fd,
      ap (λ t. get_elem? t fd) table ∙ get_elem?-set_self c.fd_table fd (f e) e at_fd,
    )

-- On a consistent state, commUpdateReadHandler of a descriptor below Biggest_FD stores the
-- handler and its data, keeps the other fields, and makes the kernel watch IN, HUP and ERR for
-- it; if it watched OUT before, that is dropped.
pub comm_update_read_handler_lem :
    (c : Comm) (fd handler data_ptr : ℕ)
    → Mirror c
    → fd < c.biggest_fd
    → (d : Comm) × (e : Fde) × (comm_update_read_handler c fd handler data_ptr ≡ some d)
      × Watching c fd 25 d
      × (get_elem? c.fd_table fd ≡ some e)
      × (get_elem? d.fd_table fd ≡ some (record e { read_handler = handler; read_data = data_ptr }))
unfolding comm_update_read_handler
comm_update_read_handler_lem c fd handler data_ptr m lt =
    update_lem c fd (λ e. record e { read_handler = handler; read_data = data_ptr }) true false m lt

-- On a consistent state, commUpdateWriteHandler of a descriptor below Biggest_FD stores the
-- handler and its data, keeps the other fields, and makes the kernel watch OUT, HUP and ERR for
-- it; if it watched IN before, that is dropped.
pub comm_update_write_handler_lem :
    (c : Comm) (fd handler data_ptr : ℕ)
    → Mirror c
    → fd < c.biggest_fd
    → (d : Comm) × (e : Fde) × (comm_update_write_handler c fd handler data_ptr ≡ some d)
      × Watching c fd 28 d
      × (get_elem? c.fd_table fd ≡ some e)
      × (get_elem? d.fd_table fd
          ≡ some (record e { write_handler = handler; write_data = data_ptr }))
unfolding comm_update_write_handler
comm_update_write_handler_lem c fd handler data_ptr m lt =
    update_lem c fd (λ e. record e { write_handler = handler; write_data = data_ptr }) false true m
      lt

-- What `comm_close` leaves.
pub record Closed (c : Comm) (fd : ℕ) (d : Comm) : Type 0 where
  pub mirror : Mirror d
  pub unwatched : (a : ℕ) → interest d.ctls a ≡ (if fd == a then 0 else interest c.ctls a)
  pub emptied : get_elem? d.fd_table fd ≡ some blank
  pub closes : d.closed ≡ fd ∷ c.closed
  pub same_size : d.biggest_fd ≡ c.biggest_fd

pub with_fde-blank :
    (c : Comm) (fd : ℕ) (e : Fde)
    → get_elem? c.fd_table fd ≡ some e
    → with_fde c fd (λ x. blank) ≡ some (record c { fd_table = set c.fd_table fd blank })
unfolding with_fde
with_fde-blank c fd e at_fd = rw at_fd refl

-- On a consistent state, comm_close of a descriptor above 0 and below Biggest_FD runs without a
-- fault, removes it from the set of the kernel, empties its entry of the table, closes it once,
-- and leaves the events of the others.
pub comm_close-Closed :
    (c : Comm) (fd : ℕ)
    → Mirror c
    → 0 < fd
    → fd < c.biggest_fd
    → (d : Comm) × (comm_close c fd ≡ some d) × Closed c fd d
unfolding comm_close
comm_close-Closed c fd m real lt =
    let (e, at_fd) = get_elem?-some c.fd_table fd (omega (arith, m.tables.0)) in
    let c' = record c { fd_table = set c.fd_table fd blank } in
    let (d, eq, w, table) =
      epoll_set_events-Watching c' fd false false (Mirror-table c fd blank m) lt in
    let null : (fd == 0) ≡ false = ground arith in
    (
      record_close fd d,
      rw (null) (rw (with_fde-blank c fd e at_fd) (rw eq refl)),
      record {
        mirror = record {
          same = w.mirror.same;
          accepts = w.mirror.accepts;
          counted = w.mirror.counted;
          tables = w.mirror.tables;
        };
        unwatched = w.watched;
        emptied = ap (λ t. get_elem? t fd) table ∙ get_elem?-set_self c.fd_table fd blank e at_fd;
        closes = ap (λ l. fd ∷ l) w.same_closed;
        same_size = w.same_size;
      },
    )

busy-replicate : (n : ℕ) → busy (replicate n 0) ≡ 0
busy-replicate zero = refl
busy-replicate (suc n) = busy-replicate n

length-replicate {ℓ} : {A : Type ℓ} (n : ℕ) (x : A) → length (replicate n x) ≡ n
length-replicate zero x = refl
length-replicate (suc n) x = ap suc (length-replicate n x)

get_elem?-replicate : (n i e : ℕ) → get_elem? (replicate n 0) i ≡ some e → 0 ≡ e
get_elem?-replicate zero i e h = cc
get_elem?-replicate (suc n) zero e h = eq_of_some h
get_elem?-replicate (suc n) (suc i) e h = get_elem?-replicate n i e h

-- After comm_init, whatever the size asked for, Biggest_FD is positive, the state is consistent
-- and the kernel watches nothing.
pub comm_init-Mirror :
    (max_fd curtime : ℕ)
    → Mirror (comm_init max_fd curtime)
      × ((fd : ℕ) → interest (comm_init max_fd curtime).ctls fd ≡ 0)
      × (0 < (comm_init max_fd curtime).biggest_fd)
unfolding comm_init
comm_init-Mirror max_fd curtime =
    let size = if ltb 0 max_fd then max_fd else 1024 in
    (
      record {
        same = get_elem?-replicate size;
        accepts = tt;
        counted = omega (arith, busy-replicate size);
        tables = (length-replicate size blank, length-replicate size 0);
      },
      λ fd. refl,
      ground arith,
    )
