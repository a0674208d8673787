-- ===== src/Comm/Interest.antt =====
-- `epoll_state` is what the kernel was told, and every call of `epoll_ctl` is one that it accepts.

use os_study_code.Base.{
  ℕ, zero, suc, ◌+◌, ◌≡◌, refl, sym, ◌∙◌, ◌≢◌, inl, inr, some, List, [], ◌∷◌, arith, ◌==◌,
  Bool-cases, if◌then◌else◌, get_elem?, set, get_elem?-set_self, get_elem?-set_ne, length,
  length-set, eq_of_some,
}
use mathlib.Core.Path.{subst}
use os_study_code.Base.Int.{ℤ, pos, pos_part, neg_part, +ℤ_parts, -ℤ_parts}
use os_study_code.Comm.{Ctl, ctl_add, ctl_mod, ctl_del, Comm, ctl_of, fds_after}

-- The events that the kernel watches for a descriptor after the calls, as epoll_ctl(2) documents
-- them: 0 where the descriptor is not in the set.
abbrev pub interest : List Ctl → ℕ → ℕ
interest [] fd = 0
interest (ctl_add f e ∷ cs) fd = if f == fd then e else interest cs fd
interest (ctl_mod f e ∷ cs) fd = if f == fd then e else interest cs fd
interest (ctl_del f ∷ cs) fd = if f == fd then 0 else interest cs fd

-- The kernel refuses to add a descriptor twice, and to change or delete one that is not there.
abbrev pub Accepts : List Ctl → Type 0
Accepts [] = Unit
Accepts (ctl_add f e ∷ cs) = (interest cs f ≡ 0) × (e ≢ 0) × Accepts cs
Accepts (ctl_mod f e ∷ cs) = (interest cs f ≢ 0) × (e ≢ 0) × Accepts cs
Accepts (ctl_del f ∷ cs) = (interest cs f ≢ 0) × Accepts cs

-- The descriptors with events.
abbrev pub busy : List ℕ → ℕ
busy [] = 0
busy (e ∷ es) = if e == 0 then busy es else suc (busy es)

pub record Mirror (c : Comm) : Type 0 where
  pub same : (fd e : ℕ) → get_elem? c.epoll_state fd ≡ some e → interest c.ctls fd ≡ e
  pub accepts : Accepts c.ctls
  pub counted : pos_part c.epoll_fds ≡ neg_part c.epoll_fds + busy c.epoll_state
  pub tables : (length c.fd_table ≡ c.biggest_fd) × (length c.epoll_state ≡ c.biggest_fd)

abbrev one_if : ℕ → ℕ
one_if e = if e == 0 then 0 else 1

busy-set :
    (es : List ℕ) (fd old e : ℕ)
    → get_elem? es fd ≡ some old
    → busy (set es fd e) + one_if old ≡ busy es + one_if e
busy-set [] fd old e h = cc
busy-set (x ∷ es) zero old e h = let same : x ≡ old = eq_of_some h in ground arith
busy-set (x ∷ es) (suc fd) old e h = ground (arith, busy-set es fd old e h)

pub interest-ctl_of :
    (fd e old : ℕ) (cs : List Ctl) (fd' : ℕ)
    → interest (ctl_of fd e old ∷ cs) fd' ≡ (if fd == fd' then e else interest cs fd')
interest-ctl_of fd e old cs fd' = elim (Bool-cases (e == 0)) [
  | inl null ↦ rw null (ground arith)
  | inr full ↦
      rw full (elim (Bool-cases (old == 0)) [ inl new ↦ rw new refl | inr known ↦ rw known refl ])
]

Accepts-ctl_of :
    (fd e old : ℕ) (cs : List Ctl)
    → interest cs fd ≡ old
    → e ≢ old
    → Accepts cs
    → Accepts (ctl_of fd e old ∷ cs)
Accepts-ctl_of fd e old cs is ne ok = elim (Bool-cases (e == 0)) [
  | inl null ↦ rw null (ground arith, ok)
  | inr full ↦ rw full (elim (Bool-cases (old == 0)) [
    | inl new ↦ rw new (ground arith, ground arith, ok)
    | inr known ↦ rw known (ground arith, ground arith, ok)
  ])
]

counted-fds_after :
    (fds : ℤ) (e old n m : ℕ)
    → e ≢ old
    → pos_part fds ≡ neg_part fds + n
    → m + one_if old ≡ n + one_if e
    → pos_part (fds_after e old fds) ≡ neg_part (fds_after e old fds) + m
counted-fds_after fds e old n m ne was step = elim (Bool-cases (e == 0)) [
  | inl null ↦ rw null (ground (arith, -ℤ_parts fds (pos 1)))
  | inr full ↦ rw full (elim (Bool-cases (old == 0)) [
    | inl new ↦ rw new (ground (arith, +ℤ_parts fds (pos 1)))
    | inr known ↦ rw known (ground arith)
  ])
]

-- The state with other events for a descriptor.
abbrev pub with_events : Comm → (fd e old : ℕ) → Comm
with_events c fd e old = record c {
  epoll_state = set c.epoll_state fd e;
  ctls = ctl_of fd e old ∷ c.ctls;
  epoll_fds = fds_after e old c.epoll_fds;
}

pub with_events-Mirror :
    (c : Comm) (fd e old : ℕ)
    → Mirror c
    → get_elem? c.epoll_state fd ≡ some old
    → e ≢ old
    → Mirror (with_events c fd e old)
with_events-Mirror c fd e old m at_fd ne = record {
  same = λ fd' e' h. same_of fd' e' h;
  accepts = Accepts-ctl_of fd e old c.ctls (m.same fd old at_fd) ne m.accepts;
  counted =
      counted-fds_after c.epoll_fds e old (busy c.epoll_state) (busy (set c.epoll_state fd e)) ne
        m.counted (busy-set c.epoll_state fd old e at_fd);
  tables = (m.tables.0, length-set c.epoll_state fd e ∙ m.tables.1);
}
  where
    same_of :
        (fd' e' : ℕ)
        → get_elem? (set c.epoll_state fd e) fd' ≡ some e'
        → interest (ctl_of fd e old ∷ c.ctls) fd' ≡ e'
    same_of fd' e' h = elim (Bool-cases (fd == fd')) [
      | inl hit ↦
          interest-ctl_of fd e old c.ctls fd'
          ∙ rw hit (
              eq_of_some (
                sym (get_elem?-set_self c.epoll_state fd e old at_fd)
                ∙ subst (λ x. get_elem? (set c.epoll_state fd e) x ≡ some e') (ground arith) h))
      | inr miss ↦
          interest-ctl_of fd e old c.ctls fd'
          ∙ rw miss
              (m.same fd' e' (sym (get_elem?-set_ne c.epoll_state fd fd' e (ground arith)) ∙ h))
    ]
