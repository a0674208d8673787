-- ===== src/EpollEcho/Memory.antt =====
-- Changes of the allocated memory and of the tables together.

use mathlib.Core.Path.{subst}
use os_study_code.Base.{
  ℕ, ◌<◌, ◌≡◌, ◌≢◌, refl, sym, ap, ◌∙◌, inl, inr, true, false, Option, none, some, arith, ◌==◌,
  Bool-cases, get_elem?, eq_of_some, eq_of_==,
}
use os_study_code.Comm.{Comm, Fde, blank}
use os_study_code.EpollEcho.{
  ConnectStat, Server, store, do_echo, read_next, write_next, free, close_connection, with_stat,
}
use os_study_code.EpollEcho.Safety.{
  Owner, Points, Owned, Good, read_handler-Good, write_handler-Good, set_timeout-Good, close-Good,
}

abbrev pub Safe : Server → Type 0
Safe s = Good s.stats s.comm

abbrev pub LeadsTo : Server → Option Server → Type 0
LeadsTo s r = (t : Server) × (r ≡ some t) × Safe t × (t.comm.biggest_fd ≡ s.comm.biggest_fd)

pub read_next-Safe :
    (fd p : ℕ) (s : Server)
    → Safe s
    → fd < s.comm.biggest_fd
    → Owner s.stats fd p
    → LeadsTo s (read_next fd p s)
unfolding read_next
read_next-Safe fd p s g lt own =
    let (c, eq, g1, same) = read_handler-Good s.stats s.comm fd do_echo p g lt (λ x. own) in
    let (d, eq', g2, same') = set_timeout-Good s.stats c fd 10 p g1 (omega arith) (λ x. own) in
    (record s { comm = d }, rw eq (rw eq' refl), g2, same' ∙ same)

pub write_next-Safe :
    (fd h p n : ℕ) (s : Server)
    → Safe s
    → fd < s.comm.biggest_fd
    → Owner s.stats fd p
    → LeadsTo s (write_next fd h p n s)
unfolding write_next
write_next-Safe fd h p n s g lt own =
    let (c, eq, g1, same) = write_handler-Good s.stats s.comm fd h p g lt (λ x. own) in
    let (d, eq', g2, same') = set_timeout-Good s.stats c fd n p g1 (omega arith) (λ x. own) in
    (record s { comm = d }, rw eq (rw eq' refl), g2, same' ∙ same)

-- The owner of an address is one descriptor.
pub Owner-unique :
    (stats : ℕ → Option ConnectStat) (a fd p : ℕ) → Owner stats a p → Owner stats fd p → a ≡ fd
Owner-unique stats a fd p o o' =
    let same = eq_of_some (sym o.2.1 ∙ o'.2.1) in sym o.2.2 ∙ ap (λ x. x.fd) same ∙ o'.2.2

-- Handlers of other data stay good when `p` changes.
pub Points-store :
    (stats : ℕ → Option ConnectStat) (p : ℕ) (v : Option ConnectStat) (a h q : ℕ)
    → (Owner stats a q → p ≢ q)
    → Points stats a h q
    → Points (store p v stats) a h q
Points-store stats p v a h q differs points given =
    let (real, there, (x, at_q, same)) = points given in
    let miss : (p == q) ≡ false = let ne = differs (points given) in ground arith in
    (real, there, (x, rw miss at_q, same))

module _ (stats : ℕ → Option ConnectStat) (c : Comm) (fd p : ℕ) (v : Option ConnectStat) where
  -- A change of memory that no other descriptor owns.
  pub store-Good :
      ((a q : ℕ) → a ≢ fd → Owner stats a q → p ≢ q)
      → ((e : Fde) → get_elem? c.fd_table fd ≡ some e → Owned (store p v stats) fd e)
      → Good stats c
      → Good (store p v stats) c
  store-Good others here g = record { mirror = g.mirror; owned = λ a e h. owned_at a e h }
    where
      owned_at : (a : ℕ) (e : Fde) → get_elem? c.fd_table a ≡ some e → Owned (store p v stats) a e
      owned_at a e h = elim (Bool-cases (a == fd)) [
        | inl hit ↦
            subst (λ n. Owned (store p v stats) n e) (sym (eq_of_== a fd hit))
              (here e (subst (λ n. get_elem? c.fd_table n ≡ some e) (eq_of_== a fd hit) h))
        | inr miss ↦
            let own = g.owned a e h in
            let ne : a ≢ fd = ground arith in
            record {
              reads =
                  Points-store stats p v a e.read_handler e.read_data (others a e.read_data ne)
                    own.reads;
              writes =
                  Points-store stats p v a e.write_handler e.write_data (others a e.write_data ne)
                    own.writes;
              times =
                  Points-store stats p v a e.timeout_handler e.timeout_data
                    (others a e.timeout_data ne) own.times;
            }
      ]

pub hit_store :
    (stats : ℕ → Option ConnectStat) (p : ℕ) (v : Option ConnectStat) → store p v stats p ≡ v
hit_store stats p v = let hit : (p == p) ≡ true = ground arith in rw hit refl

pub others_differ :
    (stats : ℕ → Option ConnectStat) (fd p : ℕ)
    → Owner stats fd p
    → (a q : ℕ) → a ≢ fd
    → Owner stats a q
    → p ≢ q
others_differ stats fd p own a q ne o same =
    ne (Owner-unique stats a fd q o (subst (λ x. Owner stats fd x) same own))

pub close_connection-Safe :
    (fd p : ℕ) (s : Server)
    → Safe s
    → fd < s.comm.biggest_fd
    → Owner s.stats fd p
    → LeadsTo s (close_connection fd p s)
unfolding close_connection free
close_connection-Safe fd p s g lt own =
    let (d, eq, g1, emptied, same) = close-Good s.stats s.comm fd g own.0 lt in
    let (x, at_p, owner) = own.2 in
    let given : (p == 0) ≡ false = let ne = own.1 in ground arith in
    (
      record s { comm = d; stats = store p none s.stats },
      rw eq (rw given (rw at_p refl)),
      store-Good s.stats d fd p none (others_differ s.stats fd p own)
          (λ e h.
            subst (λ y. Owned (store p none s.stats) fd y) (eq_of_some (sym emptied ∙ h)) unused)
          g1,
      same,
    )
  where
    unused : Owned (store p none s.stats) fd blank
    unused = record {
      reads = λ some_handler. absurd (some_handler refl);
      writes = λ some_handler. absurd (some_handler refl);
      times = λ some_handler. absurd (some_handler refl);
    }

-- The data of a descriptor changes, and is still its own.
pub with_stat-Safe :
    (fd p : ℕ) (f : ConnectStat → ConnectStat) (s : Server)
    → ((x : ConnectStat) → (f x).fd ≡ x.fd)
    → Safe s
    → Owner s.stats fd p
    → (t : Server) × (with_stat p f s ≡ some t)
      × Safe t
      × Owner t.stats fd p
      × (t.comm.biggest_fd ≡ s.comm.biggest_fd)
with_stat-Safe fd p f s keeps g own =
    let (x, at_p, owner) = own.2 in
    let stats = store p (some (f x)) s.stats in
    let still : Owner stats fd p =
      (own.0, own.1, (f x, hit_store s.stats p (some (f x)), keeps x ∙ owner)) in
    (
      record s { stats = stats },
      rw at_p refl,
      store-Good s.stats s.comm fd p (some (f x)) (others_differ s.stats fd p own)
          (λ e h.
            let before = g.owned fd e h in
            record {
              reads = own_data (some (f x)) e.read_handler e.read_data still before.reads;
              writes = own_data (some (f x)) e.write_handler e.write_data still before.writes;
              times = own_data (some (f x)) e.timeout_handler e.timeout_data still before.times;
            })
          g,
      still,
      refl,
    )
  where
    own_data :
        (v : Option ConnectStat) (h q : ℕ)
        → Owner (store p v s.stats) fd p
        → Points s.stats fd h q
        → Points (store p v s.stats) fd h q
    own_data v h q still points given = elim (Bool-cases (p == q)) [
      | inl hit ↦ subst (λ n. Owner (store p v s.stats) fd n) (eq_of_== p q hit) still
      | inr miss ↦
          let (real, there, (x, at_q, same)) = points given in
          (real, there, (x, rw miss at_q, same))
    ]
