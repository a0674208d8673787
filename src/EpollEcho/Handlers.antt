-- ===== src/EpollEcho/Handlers.antt =====
-- Each handler runs without a fault, and keeps the state as Safety says.

use mathlib.Core.Path.{subst}
use os_study_code.Base.{
  if◌then◌else◌, ℕ, zero, suc, ◌+◌, ◌≤◌, ◌<◌, ◌≡◌, ◌≢◌, refl, sym, ap, ◌∙◌, inl, inr, true, false,
  Option, none, some, List, [], ◌∷◌, arith, ◌==◌, Bool-cases, get_elem?, eq_of_==, length, ltb,
  ◌++◌,
}
use os_study_code.Base.Int.{ℤ, pos, negsuc, pos_part, neg_part}
use os_study_code.Base.Text.{codes}
use os_study_code.Http.Text.{until_nul, starts_nocase}
use os_study_code.Comm.{Fde}
use os_study_code.EpollEcho.{
  write_next, ConnectStat, Server, Answer, do_timeout, do_echo, do_response, do_welcome, buflen,
  fill, start_echo, echo_read, do_echo_handler, echo_written, do_echo_response, do_welcome_handler,
  do_echo_timeout, accept_connection, new_stat, record_write, handle,
}
use os_study_code.EpollEcho.Safety.{Owner, Points, Owned, read_handler-Good, set_timeout-Good}
use os_study_code.EpollEcho.Memory.{
  Safe, LeadsTo, read_next-Safe, write_next-Safe, hit_store, store-Good, Points-store,
  close_connection-Safe, with_stat-Safe,
}

-- What the calls of the system may return: `read` at most what it is asked for, `accept` a
-- descriptor below Biggest_FD, and `malloc` memory that was not allocated. In `do_echo_response`,
-- `write` does not fail.
pub record Possible (handler : ℕ) (a : Answer) (s : Server) : Type 0 where
  pub bounded : (bytes : List ℕ) → a.received ≡ some bytes → length bytes ≤ 1021
  pub below : pos_part a.accepted < s.comm.biggest_fd
  pub returns : a.returned ≡ a.allocated
  pub given : a.allocated ≢ 0
  pub new : s.stats a.allocated ≡ none
  pub writes : handler ≡ do_response → neg_part a.written ≡ 0

do_welcome_handler-Safe :
    (written : ℤ) (fd p : ℕ) (s : Server)
    → Safe s
    → fd < s.comm.biggest_fd
    → Owner s.stats fd p
    → LeadsTo s (do_welcome_handler written fd p s)
unfolding do_welcome_handler
do_welcome_handler-Safe written fd p s g lt own =
    let t = record_write fd (codes "Welcome.\n") s in
    elim (Bool-cases (pos_part written == 9)) [
      | inl all ↦ rw all (read_next-Safe fd p t g lt own)
      | inr few ↦ (t, rw few refl, g, refl)
    ]

fill-Safe :
    (fd p : ℕ) (bytes : List ℕ) (s : Server)
    → length bytes ≤ 1021
    → Safe s
    → Owner s.stats fd p
    → (t : Server) × (fill p bytes s ≡ some t)
      × Safe t
      × Owner t.stats fd p
      × (t.comm.biggest_fd ≡ s.comm.biggest_fd)
fill-Safe fd p bytes s le g own =
    let inside : ltb (2 + length bytes) buflen ≡ true = ground arith in
    let f : ConnectStat → ConnectStat =
      λ x. record x { send_buf = codes "->" ++ until_nul bytes } in
    let (t, eq, g1, own1, same) = with_stat-Safe fd p f s (λ x. refl) g own in
    (t, rw inside eq, g1, own1, same)

echo_read-Safe :
    (received : Option (List ℕ)) (fd p : ℕ) (s : Server)
    → ((bytes : List ℕ) → received ≡ some bytes → length bytes ≤ 1021)
    → Safe s
    → fd < s.comm.biggest_fd
    → Owner s.stats fd p
    → LeadsTo s (echo_read received fd p s)
unfolding echo_read
echo_read-Safe none fd p s le g lt own = (s, refl, g, refl)
echo_read-Safe (some []) fd p s le g lt own = close_connection-Safe fd p s g lt own
echo_read-Safe (some (b ∷ bs)) fd p s le g lt own =
    let (t, eq, g1, own1, same) = fill-Safe fd p (b ∷ bs) s (le (b ∷ bs) refl) g own in
    elim (Bool-cases (starts_nocase (until_nul (b ∷ bs)) (codes "quit"))) [
      | inl quits ↦
          let (u, eq', g2, same') = close_connection-Safe fd p t g1 (omega arith) own1 in
          (u, rw eq (rw quits eq'), g2, same' ∙ same)
      | inr stays ↦
          let (u, eq', g2, same') = write_next-Safe fd do_response p 10 t g1 (omega arith) own1 in
          (u, rw eq (rw stays eq'), g2, same' ∙ same)
    ]

do_echo_handler-Safe :
    (received : Option (List ℕ)) (fd p : ℕ) (s : Server)
    → ((bytes : List ℕ) → received ≡ some bytes → length bytes ≤ 1021)
    → Safe s
    → fd < s.comm.biggest_fd
    → Owner s.stats fd p
    → LeadsTo s (do_echo_handler received fd p s)
unfolding do_echo_handler
do_echo_handler-Safe received fd p s le g lt own =
    let given : (p == 0) ≡ false = let ne = own.1 in ground arith in
    let (t, eq, g1, own1, same) = with_stat-Safe fd p start_echo s (λ x. refl) g own in
    let (u, eq', g2, same') = echo_read-Safe received fd p t le g1 (omega arith) own1 in
    (u, rw given (rw eq eq'), g2, same' ∙ same)

echo_written-Safe :
    (written : ℤ) (fd p : ℕ) (s : Server)
    → neg_part written ≡ 0
    → Safe s
    → fd < s.comm.biggest_fd
    → Owner s.stats fd p
    → LeadsTo s (echo_written written fd p s)
unfolding echo_written
echo_written-Safe (pos zero) fd p s no_error g lt own = close_connection-Safe fd p s g lt own
echo_written-Safe (pos (suc n)) fd p s no_error g lt own =
    let (c, eq, g1, same) = set_timeout-Good s.stats s.comm fd 10 p g lt (λ x. own) in
    let (d, eq', g2, same') =
      read_handler-Good s.stats c fd do_echo p g1 (omega arith) (λ x. own) in
    (record s { comm = d }, rw eq (rw eq' refl), g2, same' ∙ same)
echo_written-Safe (negsuc n) fd p s no_error g lt own = absurd (omega arith)

do_echo_response-Safe :
    (written : ℤ) (fd p : ℕ) (s : Server)
    → neg_part written ≡ 0
    → Safe s
    → fd < s.comm.biggest_fd
    → Owner s.stats fd p
    → LeadsTo s (do_echo_response written fd p s)
unfolding do_echo_response
do_echo_response-Safe written fd p s no_error g lt own =
    let (x, at_p, owner) = own.2 in
    let (t, eq, g1, same) =
      echo_written-Safe written fd p (record_write fd x.send_buf s) no_error g lt own in
    (t, rw at_p eq, g1, same)

do_echo_timeout-Safe :
    (fd p : ℕ) (s : Server)
    → Safe s
    → fd < s.comm.biggest_fd
    → Owner s.stats fd p
    → LeadsTo s (do_echo_timeout fd p s)
unfolding do_echo_timeout
do_echo_timeout-Safe fd p s g lt own = close_connection-Safe fd p s g lt own

-- New memory is nobody's.
pub new_stat-Safe :
    (fd p : ℕ) (s : Server)
    → 0 < fd
    → p ≢ 0
    → s.stats p ≡ none
    → Safe s
    → Safe (new_stat fd p s)
      × Owner (new_stat fd p s).stats fd p
      × ((new_stat fd p s).comm ≡ s.comm)
new_stat-Safe fd p s real given new g =
    let some_memory : (p == 0) ≡ false = ground arith in
    let v = some (record { fd = fd; send_buf = [] }) in
    rw some_memory (
      store-Good s.stats s.comm fd p v (λ a q ne o. free_address a q o)
          (λ e h.
            let own = g.owned fd e h in
            record {
              reads =
                  Points-store s.stats p v fd e.read_handler e.read_data
                    (free_address fd e.read_data) own.reads;
              writes =
                  Points-store s.stats p v fd e.write_handler e.write_data
                    (free_address fd e.write_data) own.writes;
              times =
                  Points-store s.stats p v fd e.timeout_handler e.timeout_data
                    (free_address fd e.timeout_data) own.times;
            })
          g,
      (real, given, (record { fd = fd; send_buf = [] }, hit_store s.stats p v, refl)),
      refl,
    )
  where
    free_address : (a q : ℕ) → Owner s.stats a q → p ≢ q
    free_address a q o same =
        let (x, at_q, owner) = o.2 in let allocated = ap s.stats same ∙ at_q in cc

pub result-stat : (p returned : ℕ) → p ≢ 0 → returned ≡ p → (if p == 0 then 0 else returned) ≡ p
result-stat p returned given returns =
    let some_memory : (p == 0) ≡ false = ground arith in rw some_memory returns

accept_connection-Safe :
    (accepted : ℤ) (p returned : ℕ) (s : Server)
    → pos_part accepted < s.comm.biggest_fd
    → returned ≡ p
    → p ≢ 0
    → s.stats p ≡ none
    → Safe s
    → LeadsTo s (accept_connection accepted p returned s)
unfolding accept_connection
accept_connection-Safe (pos zero) p returned s below returns given new g = (s, refl, g, refl)
accept_connection-Safe (negsuc n) p returned s below returns given new g = (s, refl, g, refl)
accept_connection-Safe (pos (suc n)) p returned s below returns given new g =
    let as_meant = result-stat p returned given returns in
    let (g1, own, same) = new_stat-Safe (suc n) p s (omega arith) given new g in
    let (t, eq, g2, same') =
      write_next-Safe (suc n) do_welcome p 30 (new_stat (suc n) p s) g1
        (subst (λ c. suc n < c.biggest_fd) (sym same) below) own in
    (
      t,
      ap (λ x. write_next (suc n) do_welcome x 30 (new_stat (suc n) p s)) as_meant ∙ eq,
      g2,
      same' ∙ ap (λ c. c.biggest_fd) same,
    )

-- A handler of an entry of the table, with its data.
pub data Registered (e : Fde) : (handler data_ptr : ℕ) → Type 0 where
  for_reading : Registered e e.read_handler e.read_data
  for_writing : Registered e e.write_handler e.write_data
  for_timeout : Registered e e.timeout_handler e.timeout_data

Registered-Points :
    (stats : ℕ → Option ConnectStat) (fd : ℕ) (e : Fde) (h p : ℕ)
    → Owned stats fd e
    → Registered e h p
    → Points stats fd h p
Registered-Points stats fd e h p own for_reading = own.reads
Registered-Points stats fd e h p own for_writing = own.writes
Registered-Points stats fd e h p own for_timeout = own.times

-- Where epoll_state mirrors what the kernel was told and every handler in the table has data that
-- is allocated for its own descriptor, the call of any registered handler runs without a fault
-- and keeps this: nothing is freed twice or used after it is freed, nothing is written behind
-- send_buf, and Biggest_FD stays. Here read returns at most the 1021 bytes asked for, accept a
-- descriptor below Biggest_FD, malloc succeeds with memory that was not allocated, stat_init returns
-- its address, and write does not fail in do_echo_response.
pub handle-Safe :
    (fd h p : ℕ) (e : Fde) (a : Answer) (s : Server)
    → Safe s
    → fd < s.comm.biggest_fd
    → get_elem? s.comm.fd_table fd ≡ some e
    → Registered e h p
    → h ≢ 0
    → Possible h a s
    → LeadsTo s (handle h fd p a s)
unfolding handle
handle-Safe fd h p e a s g lt at_fd reg some_handler can =
    let own = Registered-Points s.stats fd e h p (g.owned fd e at_fd) reg some_handler in
    elim (Bool-cases (h == do_welcome)) [
      | inl hit ↦ rw hit (do_welcome_handler-Safe a.written fd p s g lt own)
      | inr no1 ↦ elim (Bool-cases (h == do_echo)) [
        | inl hit ↦ rw no1 (rw hit (do_echo_handler-Safe a.received fd p s can.bounded g lt own))
        | inr no2 ↦ elim (Bool-cases (h == do_response)) [
          | inl hit ↦ rw no1 (
              rw no2 (
                rw hit (
                  do_echo_response-Safe a.written fd p s (can.writes (eq_of_== h do_response hit)) g
                    lt own)))
          | inr no3 ↦ elim (Bool-cases (h == do_timeout)) [
            | inl hit ↦ rw no1 (rw no2 (rw no3 (rw hit (do_echo_timeout-Safe fd p s g lt own))))
            | inr no4 ↦ rw no1 (
                rw no2 (
                  rw no3 (
                    rw no4 (
                      accept_connection-Safe a.accepted a.allocated a.returned s can.below
                        can.returns can.given can.new g))))
          ]
        ]
      ]
    ]
