-- ===== src/EpollEcho/Tests.antt =====
-- A connection of the echo server at descriptor 3.

use mathlib.Core.Path.{subst}
use os_study_code.Base.{
  ℕ, zero, suc, ◌≤◌, ◌≡◌, refl, Option, none, some, [], ◌∷◌, arith, ◌==◌, if◌then◌else◌, get_elem?,
  eq_of_some, length,
}
use os_study_code.Base.Int.{pos, ◌+ℤ◌}
use os_study_code.Base.Text.{codes}
use os_study_code.Comm.{
  ctl_add, comm_update_read_handler, with_fde, epoll_set_events, Fde, Comm, blank, comm_init,
}
use os_study_code.EpollEcho.Runs.{Ready, Reach, opened, Reach-handle}
use os_study_code.Comm.Interest.{Mirror}
use os_study_code.Comm.Updates.{comm_init-Mirror}
use os_study_code.EpollEcho.{
  do_accept, open_server, store, nothing, Answer, ConnectStat, Server, handle, do_echo, do_timeout,
  do_echo_handler,
}
use os_study_code.EpollEcho.Safety.{Owned, Good}
use os_study_code.EpollEcho.Memory.{Safe}
use os_study_code.EpollEcho.Handlers.{Possible, for_reading}
use os_study_code.EpollEcho.Reply.{Answering, do_echo_handler-Answering}

abbrev connected : Fde
connected = record {
  read_handler = do_echo;
  read_data = 8;
  write_handler = 0;
  write_data = 0;
  timeout_handler = do_timeout;
  timeout = 110;
  timeout_data = 8;
}

abbrev tables : Comm
tables = record (comm_init 4 100) { fd_table = blank ∷ blank ∷ blank ∷ connected ∷ [] }

tables-Mirror : Mirror tables
unfolding comm_init
tables-Mirror =
    let m = (comm_init-Mirror 4 100).0 in
    record { same = m.same; accepts = m.accepts; counted = m.counted; tables = (refl, refl) }

abbrev one_client : ConnectStat
one_client = record { fd = 3; send_buf = [] }

abbrev memory : ℕ → Option ConnectStat
memory p = if p == 8 then some one_client else none

abbrev server : Server
server = record { comm = tables; stats = memory; sent = [] }

blank-Owned : (fd : ℕ) → Owned memory fd blank
blank-Owned fd = record {
  reads = λ h. absurd (h refl);
  writes = λ h. absurd (h refl);
  times = λ h. absurd (h refl);
}

connected-Owned : Owned memory 3 connected
connected-Owned = record {
  reads = λ h. (omega arith, omega arith, (one_client, refl, refl));
  writes = λ h. absurd (h refl);
  times = λ h. (omega arith, omega arith, (one_client, refl, refl));
}

server-Owned : (fd : ℕ) (e : Fde) → get_elem? tables.fd_table fd ≡ some e → Owned memory fd e
server-Owned zero e h = subst (Owned memory 0) (eq_of_some h) (blank-Owned 0)
server-Owned (suc zero) e h = subst (Owned memory 1) (eq_of_some h) (blank-Owned 1)
server-Owned (suc (suc zero)) e h = subst (Owned memory 2) (eq_of_some h) (blank-Owned 2)
server-Owned (suc (suc (suc zero))) e h = subst (Owned memory 3) (eq_of_some h) connected-Owned
server-Owned (suc (suc (suc (suc fd)))) e h = cc

server-Good : Good memory tables
server-Good = record { mirror = tables-Mirror; owned = server-Owned }

-- The client sends "hi", and a new memory block would be at 9.
abbrev hi : Answer
hi = record {
  accepted = pos 0;
  allocated = 9;
  returned = 9;
  received = some (codes "hi");
  written = pos 4;
}

hi-Possible : Possible do_echo hi server
unfolding comm_init
hi-Possible = record {
  bounded = λ bytes h. subst (λ b. length b ≤ 1021) (eq_of_some h) (omega arith);
  below = omega arith;
  returns = refl;
  given = omega arith;
  new = refl;
  writes = λ h. refl;
}

do_echo_handler-Answering_example :
    (t : Server) × (do_echo_handler (some (codes "hi")) 3 8 server ≡ some t)
    × Answering server 3 8 (codes "->hi") t
unfolding comm_init
do_echo_handler-Answering_example =
    do_echo_handler-Answering server 3 8 104 (codes "i") one_client tables-Mirror (omega arith)
      (omega arith) refl (omega arith) refl

-- The server listens at 3, and a client comes at 4.
abbrev listening : Server
listening = record {
  comm = record (comm_init 8 100) {
    fd_table =
        blank
        ∷ blank
        ∷ blank
        ∷ record blank { read_handler = do_accept; read_data = 8 }
        ∷ blank
        ∷ blank
        ∷ blank
        ∷ blank
        ∷ [];
    epoll_state = 0 ∷ 0 ∷ 0 ∷ 25 ∷ 0 ∷ 0 ∷ 0 ∷ 0 ∷ [];
    ctls = ctl_add 3 25 ∷ [];
    epoll_fds = pos 1;
  };
  stats = store 8 (some one_client) nothing;
  sent = [];
}

opens : open_server 8 100 3 8 8 ≡ some listening
unfolding open_server comm_init comm_update_read_handler with_fde epoll_set_events ◌+ℤ◌
opens = refl

listening-Reach : Reach listening
unfolding comm_init
listening-Reach = opened 8 100 3 8 8 (omega arith) (omega arith) (omega arith) refl opens

abbrev new_client : Answer
new_client = record {
  accepted = pos 4;
  allocated = 9;
  returned = 9;
  received = none;
  written = pos 0;
}

client-Ready : Ready 3 do_accept 8 new_client listening
unfolding comm_init
client-Ready = record {
  below = omega arith;
  entry = record blank { read_handler = do_accept; read_data = 8 };
  at_fd = refl;
  registered = for_reading;
  given = omega arith;
  possible = record {
    bounded = λ bytes h. cc;
    below = omega arith;
    returns = refl;
    given = omega arith;
    new = refl;
    writes = λ h. refl;
  };
}

Reach-handle_example :
    (t : Server) × (handle do_accept 3 8 new_client listening ≡ some t) × Reach t × Safe t
Reach-handle_example = Reach-handle listening 3 do_accept 8 new_client listening-Reach client-Ready
