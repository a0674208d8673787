-- ===== src/EpollEcho/Reply.antt =====
-- What a client gets back.

use os_study_code.Base.{
  ℕ, ◌+◌, ◌≤◌, ◌<◌, ◌≡◌, ◌≢◌, refl, ◌∙◌, true, false, some, List, ◌∷◌, ◌++◌, arith, ◌==◌, get_elem?,
  set, get_elem?-set_self, length, leb, ltb, drop,
}
use os_study_code.Base.Int.{ℤ}
use os_study_code.Base.Text.{codes}
use os_study_code.Http.Text.{until_nul, starts_nocase}
use os_study_code.Comm.{Fde, comm_set_timeout, timed}
use os_study_code.Comm.Interest.{interest, Mirror}
use os_study_code.Comm.Updates.{comm_update_write_handler_lem}
use os_study_code.EpollEcho.{
  ConnectStat, Server, store, do_timeout, do_response, write_next, buflen, echo_read,
  do_echo_handler, echo_written, do_echo_response,
}
use os_study_code.EpollEcho.Memory.{hit_store}

-- The descriptor waits to be written to, and the handler for it sends `text` first.
pub record Answering (s : Server) (fd p : ℕ) (text : List ℕ) (t : Server) : Type 0 where
  pub watched : interest t.comm.ctls fd ≡ 28
  pub entry : Fde
  pub at_fd : get_elem? t.comm.fd_table fd ≡ some entry
  pub next : (entry.write_handler ≡ do_response) × (entry.write_data ≡ p)
  pub reply :
      (written : ℤ)
      → (u : Server) × (do_echo_response written fd p t ≡ echo_written written fd p u)
        × (u.sent ≡ (fd, text) ∷ s.sent)

-- After `do_echo_handler` has filled the buffer.
write_next-Answering :
    (s : Server) (fd p : ℕ) (x : ConnectStat)
    → Mirror s.comm
    → fd < s.comm.biggest_fd
    → s.stats p ≡ some x
    → (t : Server) × (write_next fd do_response p 10 s ≡ some t) × Answering s fd p x.send_buf t
unfolding write_next comm_set_timeout timed do_echo_response
write_next-Answering s fd p x m lt at_p =
    let (d, e, eq, w, old, at_d) = comm_update_write_handler_lem s.comm fd do_response p m lt in
    let e1 = record e { write_handler = do_response; write_data = p } in
    let e2 = record e1 {
      timeout_handler = do_timeout;
      timeout_data = p;
      timeout = d.curtime + 10;
    } in
    let inside : leb d.biggest_fd fd ≡ false = let same = w.same_size in ground arith in
    let c = record d { fd_table = set d.fd_table fd e2 } in
    let hit : (fd == fd) ≡ true = ground arith in
    (
      record s { comm = c },
      rw eq (rw inside (rw at_d refl)),
      record {
        watched = w.watched fd ∙ rw hit refl;
        entry = e2;
        at_fd = get_elem?-set_self d.fd_table fd e2 e1 at_d;
        next = (refl, refl);
        reply = λ written.
            (record s { comm = c; sent = (fd, x.send_buf) ∷ s.sent }, rw at_p refl, refl);
      },
    )

-- On consistent tables, when do_echo_handler reads at least one and at most 1021 bytes that do
-- not start with quit in any case, it runs without a fault, the kernel then watches OUT, HUP and
-- ERR for the descriptor, its write handler is do_echo_response with the same data, and the next
-- do_echo_response writes -> and the text up to its first NUL before it looks at what write
-- returns.
pub do_echo_handler-Answering :
    (s : Server) (fd p b : ℕ) (bs : List ℕ) (x : ConnectStat)
    → Mirror s.comm
    → fd < s.comm.biggest_fd
    → p ≢ 0
    → s.stats p ≡ some x
    → length (b ∷ bs) ≤ 1021
    → starts_nocase (until_nul (b ∷ bs)) (codes "quit") ≡ false
    → (t : Server) × (do_echo_handler (some (b ∷ bs)) fd p s ≡ some t)
      × Answering s fd p (codes "->" ++ until_nul (b ∷ bs)) t
unfolding do_echo_handler echo_read
do_echo_handler-Answering s fd p b bs x m lt given at_p le stays =
    let some_data : (p == 0) ≡ false = ground arith in
    let inside : ltb (2 + length (b ∷ bs)) buflen ≡ true = ground arith in
    let x1 = record x { send_buf = codes "->" ++ drop 2 x.send_buf } in
    let x2 = record x { send_buf = codes "->" ++ until_nul (b ∷ bs) } in
    let stats1 = store p (some x1) s.stats in
    let s2 = record s { stats = store p (some x2) stats1 } in
    let (t, eq, a) = write_next-Answering s2 fd p x2 m lt (hit_store stats1 p (some x2)) in
    (
      t,
      rw some_data (rw at_p (rw inside (rw (hit_store s.stats p (some x1)) (rw stays eq)))),
      record {
        watched = a.watched;
        entry = a.entry;
        at_fd = a.at_fd;
        next = a.next;
        reply = a.reply;
      },
    )
