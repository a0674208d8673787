-- ===== src/Polls/Table.antt =====
-- The table follows the sockets, and a visit keeps it so.

use mathlib.Core.Path.{subst}
use os_study_code.Base.{
  ℕ, ◌≤◌, ◌<◌, ◌≡◌, ◌≢◌, refl, sym, ap, ◌∙◌, inl, inr, Bool, true, false, not, none, some, arith,
  ◌==◌, Bool-cases, eq_of_==,
}
use os_study_code.Polls.{
  PollFd, Polls, max_fd, blank, put, has_in, has_out, watch, with_events, read_client,
}

pub put-cases {ℓ κ} :
    {A : Type ℓ} (P : ℕ → A → Type κ) (i : ℕ) (v : A) (f : ℕ → A)
    → P i v
    → ((j : ℕ) → i ≢ j → P j (f j))
    → (j : ℕ) → P j (put i v f j)
put-cases P i v f here others j = elim (Bool-cases (i == j)) [
  | inl hit ↦ rw hit (subst (λ n. P n v) (eq_of_== i j hit) here)
  | inr miss ↦ rw miss (others j (ground arith))
]

pub put-hit {ℓ} : {A : Type ℓ} (i : ℕ) (v : A) (f : ℕ → A) → put i v f i ≡ v
put-hit i v f = let hit : (i == i) ≡ true = ground arith in rw hit refl

pub put-miss {ℓ} : {A : Type ℓ} (i j : ℕ) (v : A) (f : ℕ → A) → i ≢ j → put i v f j ≡ f j
put-miss i j v f ne = let miss : (i == j) ≡ false = ground arith in rw miss refl

-- An entry stands for the open socket of its index, or for none, and then it has no events but
-- errors.
pub record Entry (i : ℕ) (e : PollFd) (in_use : Bool) : Type 0 where
  pub own : e.events ≢ 0 → e.fd ≡ i
  pub unused : e.events ≡ 0 → e.fd ≡ 0
  pub tracked : in_use ≡ not (e.events == 0)
  pub silent : e.events ≡ 0 → (has_in e.revents ≡ false) × (has_out e.revents ≡ false)

pub record Table (server : ℕ) (s : Polls) : Type 0 where
  pub entries : (i : ℕ) → Entry i (s.fds i) (s.sockets i)
  pub beyond : (i : ℕ) → s.cur_max_fd ≤ i → (s.fds i).events ≡ 0
  pub bounded : s.cur_max_fd ≤ max_fd
  pub listens : (s.fds server).events ≢ 0

pub blank-Entry : (i : ℕ) → Entry i blank false
blank-Entry i = record {
  own = λ h. absurd (h refl);
  unused = λ h. refl;
  tracked = refl;
  silent = λ h. (refl, refl);
}

pub watched-Entry : (i : ℕ) → Entry i (record { fd = i; events = 1; revents = 0 }) true
watched-Entry i = record {
  own = λ h. refl;
  unused = λ h. absurd (omega (arith, h));
  tracked = refl;
  silent = λ h. absurd (omega (arith, h));
}

-- Other events for an entry in use.
events-Entry :
    (i events : ℕ) (e : PollFd) (in_use : Bool)
    → events ≢ 0
    → e.events ≢ 0
    → Entry i e in_use
    → Entry i (record e { events = events }) in_use
events-Entry i events e in_use some_events used k = record {
  own = λ h. k.own used;
  unused = λ h. absurd (some_events h);
  tracked = k.tracked ∙ ground arith;
  silent = λ h. absurd (some_events h);
}

-- Both tables change at one index.
pub both-Entry :
    (s : Polls) (i : ℕ) (e : PollFd) (b : Bool)
    → ((j : ℕ) → Entry j (s.fds j) (s.sockets j))
    → Entry i e b
    → (j : ℕ) → Entry j (put i e s.fds j) (put i b s.sockets j)
both-Entry s i e b all here j = elim (Bool-cases (i == j)) [
  | inl hit ↦ rw hit (subst (λ n. Entry n e b) (eq_of_== i j hit) here)
  | inr miss ↦ rw miss (all j)
]

pub watch-Table :
    (server d : ℕ) (s : Polls) → d < max_fd → Table server s → Table server (watch d s)
watch-Table server d s lt t = record {
  entries =
      both-Entry s d (record { fd = d; events = 1; revents = 0 }) true t.entries (watched-Entry d);
  beyond = λ i le.
      let far : s.cur_max_fd ≤ i = ground arith in
      let other : d ≢ i = ground arith in
      ap (λ e. e.events) (put-miss d i _ s.fds other) ∙ t.beyond i far;
  bounded = ground (arith, t.bounded);
  listens =
      put-cases (λ j e. (j ≡ server) → e.events ≢ 0) d (record { fd = d; events = 1; revents = 0 })
        s.fds (λ at. omega arith) (λ j ne at. subst (λ n. (s.fds n).events ≢ 0) (sym at) t.listens)
        server refl;
}

pub with_events-Table :
    (server i events : ℕ) (s : Polls)
    → events ≢ 0
    → (s.fds i).events ≢ 0
    → Table server s
    → Table server (with_events i events s)
with_events-Table server i events s some_events used t = record {
  entries =
      put-cases (λ j e. Entry j e (s.sockets j)) i (record (s.fds i) { events = events }) s.fds
        (events-Entry i events (s.fds i) (s.sockets i) some_events used (t.entries i))
        (λ j ne. t.entries j);
  beyond = λ j le.
      put-cases (λ n e. s.cur_max_fd ≤ n → e.events ≡ 0) i (record (s.fds i) { events = events })
        s.fds (λ far. absurd (used (t.beyond i far))) (λ n ne far. t.beyond n far) j le;
  bounded = t.bounded;
  listens =
      put-cases (λ j e. (j ≡ server) → e.events ≢ 0) i (record (s.fds i) { events = events }) s.fds
        (λ at. some_events) (λ j ne at. subst (λ n. (s.fds n).events ≢ 0) (sym at) t.listens) server
        refl;
}

pub remove-Table :
    (server i : ℕ) (s : Polls)
    → i ≢ server
    → (s.fds i).fd ≡ i
    → Table server s
    → Table server (read_client i (some none) s)
unfolding read_client
remove-Table server i s other own t = record {
  entries =
      subst (λ d. (j : ℕ) → Entry j (put i blank s.fds j) (put d false s.sockets j)) (sym own)
        (both-Entry s i blank false t.entries (blank-Entry i));
  beyond = λ j le.
      put-cases (λ n e. s.cur_max_fd ≤ n → e.events ≡ 0) i blank s.fds (λ far. refl)
        (λ n ne far. t.beyond n far) j le;
  bounded = t.bounded;
  listens = subst (λ e. e.events ≢ 0) (sym (put-miss i server blank s.fds other)) t.listens;
}
