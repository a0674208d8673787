-- ===== src/EpollEcho/Runs.antt =====
-- The server from its start: its handlers never fault.
use mathlib.Core.Option
use mathlib.Core.Path.{subst}
use os_study_code.Base.{
  ℕ, zero, suc, ◌<◌, ◌≡◌, ◌≢◌, refl, sym, ap, ◌∙◌, some, [], get_elem?, replicate, eq_of_some,
}
use os_study_code.Comm.{Fde, blank, comm_init, comm_update_read_handler}
use os_study_code.Comm.Updates.{comm_init-Mirror}
use os_study_code.EpollEcho.{
  Server, Answer, handle, open_server, nothing, new_stat, do_accept, on_comm,
}
use os_study_code.EpollEcho.Safety.{Owned, Good, read_handler-Good}
use os_study_code.EpollEcho.Memory.{Safe}
use os_study_code.EpollEcho.Handlers.{Registered, Possible, handle-Safe, new_stat-Safe, result-stat}

-- A handler in the table, with what the system answers to it.
pub record Ready (fd h p : ℕ) (a : Answer) (s : Server) : Type 0 where
  pub below : fd < s.comm.biggest_fd
  pub entry : Fde
  pub at_fd : get_elem? s.comm.fd_table fd ≡ some entry
  pub registered : Registered entry h p
  pub given : h ≢ 0
  pub possible : Possible h a s

-- The states of the server: after the start, after calls of handlers, and at later times.
pub data Reach : Server → Type 0 where
  opened :
      {s : Server} (max_fd now listen_sock allocated returned : ℕ)
      → 0 < listen_sock
      → listen_sock < (comm_init max_fd now).biggest_fd
      → allocated ≢ 0
      → returned ≡ allocated
      → open_server max_fd now listen_sock allocated returned ≡ some s
      → Reach s
  handled :
      {s t : Server} (fd h p : ℕ) (a : Answer)
      → Reach s
      → Ready fd h p a s
      → handle h fd p a s ≡ some t
      → Reach t
  waited :
      {s : Server} (now : ℕ) → Reach s → Reach (record s { comm = record s.comm { curtime = now } })

unused-Owned : (fd : ℕ) → Owned nothing fd blank
unused-Owned fd = record {
  reads = λ some_handler. absurd (some_handler refl);
  writes = λ some_handler. absurd (some_handler refl);
  times = λ some_handler. absurd (some_handler refl);
}

replicate-blank : (n fd : ℕ) (e : Fde) → get_elem? (replicate n blank) fd ≡ some e → blank ≡ e
replicate-blank zero fd e h = cc
replicate-blank (suc n) zero e h = eq_of_some h
replicate-blank (suc n) (suc fd) e h = replicate-blank n fd e h

comm_init-Good : (max_fd now : ℕ) → Good nothing (comm_init max_fd now)
unfolding comm_init
comm_init-Good max_fd now = record {
  mirror = (comm_init-Mirror max_fd now).0;
  owned = λ fd e h. subst (Owned nothing fd) (replicate-blank _ fd e h) (unused-Owned fd);
}

pub open_server-Safe :
    (max_fd now listen_sock allocated returned : ℕ)
    → 0 < listen_sock
    → listen_sock < (comm_init max_fd now).biggest_fd
    → allocated ≢ 0
    → returned ≡ allocated
    → (s : Server) × (open_server max_fd now listen_sock allocated returned ≡ some s) × Safe s
unfolding open_server
open_server-Safe max_fd now listen_sock allocated returned real below given returns =
    let as_meant = result-stat allocated returned given returns in
    let bare : Server = record { comm = comm_init max_fd now; stats = nothing; sent = [] } in
    let first = new_stat listen_sock allocated bare in
    let (g, own, same) =
      new_stat-Safe listen_sock allocated bare real given refl (comm_init-Good max_fd now) in
    let (d, eq, g1, size) =
      read_handler-Good first.stats first.comm listen_sock do_accept allocated g
        (subst (λ c. listen_sock < c.biggest_fd) (sym same) below) (λ x. own) in
    (
      record first { comm = d },
      ap (λ x. on_comm first (comm_update_read_handler first.comm listen_sock do_accept x)) as_meant
          ∙ ap (Option.map (λ c. record first { comm = c })) eq,
      g1,
    )

Reach-Safe : {s : Server} → Reach s → Safe s
Reach-Safe {s} (opened max_fd now listen_sock allocated returned real below given returns opens) =
    let (s', eq, g) =
      open_server-Safe max_fd now listen_sock allocated returned real below given returns in
    subst Safe (eq_of_some (sym eq ∙ opens)) g
Reach-Safe (handled {s} fd h p a r ready ran) =
    let (t, eq, g, same) =
      handle-Safe fd h p ready.entry a s (Reach-Safe r) ready.below ready.at_fd ready.registered
        ready.given ready.possible in
    subst Safe (eq_of_some (sym eq ∙ ran)) g
Reach-Safe (waited now r) =
    let g = Reach-Safe r in
    let m = g.mirror in
    record {
      mirror = record {
        same = m.same;
        accepts = m.accepts;
        counted = m.counted;
        tables = m.tables;
      };
      owned = g.owned;
    }

-- In every state that the server gets to from its start, on a socket above 0 and below
-- Biggest_FD, by calls of registered handlers and by the clock, the next call of a registered
-- handler runs without a fault, and again leads to such a state, where the tables are consistent
-- and all handlers have allocated data of their own. Here read returns at most 1021 bytes, accept
-- a descriptor below Biggest_FD, malloc succeeds with memory that was not allocated, stat_init
-- returns its address although it has no return statement, and write does not fail in
-- do_echo_response.
pub Reach-handle :
    (s : Server) (fd h p : ℕ) (a : Answer)
    → Reach s
    → Ready fd h p a s
    → (t : Server) × (handle h fd p a s ≡ some t) × Reach t × Safe t
Reach-handle s fd h p a r ready =
    let (t, eq, g, same) =
      handle-Safe fd h p ready.entry a s (Reach-Safe r) ready.below ready.at_fd ready.registered
        ready.given ready.possible in
    (t, eq, handled fd h p a r ready eq, g)
