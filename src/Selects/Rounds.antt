-- ===== src/Selects/Rounds.antt =====
-- A round of the server: the set follows the sockets, and each client gets its own answer.
use mathlib.Core.Option
use os_study_code.Base.{
  ℕ, zero, suc, ◌+◌, ◌<◌, ◌≡◌, refl, sym, ap, ◌∙◌, ◌⊎◌, inl, inr, Bool, true, false, not, ◌&&◌,
  Option, none, some, List, [], ◌∷◌, ◌++◌, arith, ltb, ◌==◌, if◌then◌else◌, Bool-cases,
}
use os_study_code.Base.Int.{ℤ, pos, negsuc}
use os_study_code.Selects.{
  Selects, Answer, fd_setsize, mark, add_client, bump, serve_client, visit, scan, round, empty,
  open_server,
}

abbrev pub InSet : ℤ → Type 0
InSet (pos n) = n < fd_setsize
InSet (negsuc n) = ⊥

-- What the system may answer: descriptors that fit the set, and a byte where FIONREAD counts one.
pub record Possible (a : Answer) : Type 0 where
  pub fits : InSet a.accepted
  pub reads : (a.nread ≡ 0) ⊎ ((c : ℕ) × (a.received ≡ some c))

-- The set of `select` has just the open sockets.
abbrev pub Follows : Selects → Type 0
Follows s = (d : ℕ) → s.readfds d ≡ s.sockets d

module _ (server : ℕ) (testfds : ℕ → Bool) (answers : ℕ → Answer) where
  -- The answer that a ready client with data is to get: its own byte and one.
  abbrev pub reply : ℕ → List (ℕ × Option ℕ)
  reply fd =
      if testfds fd && not (fd == server) && not ((answers fd).nread == 0)
      then (fd, Option.map bump (answers fd).received) ∷ []
      else []

  -- The answers to `n` descriptors from `fd` on.
  abbrev pub replies : (n fd : ℕ) → List (ℕ × Option ℕ)
  replies zero fd = []
  replies (suc n) fd = reply fd ++ replies n (fd + 1)

abbrev pub reverse_onto {ℓ} : {A : Type ℓ} → List A → List A → List A
reverse_onto [] ys = ys
reverse_onto (x ∷ xs) ys = reverse_onto xs (x ∷ ys)

mark-Follows : (fd : ℕ) (b : Bool) (s : Selects) → Follows s → Follows (mark fd b s)
mark-Follows fd b s h d = elim (Bool-cases (fd == d)) [
  | inl hit ↦ rw hit refl
  | inr miss ↦ rw miss (h d)
]

module _ (server : ℕ) (testfds : ℕ → Bool) (answers : ℕ → Answer) where
  -- One ready descriptor.
  visit-Follows :
      (fd : ℕ) (s : Selects)
      → Possible (answers fd)
      → testfds fd ≡ true
      → Follows s
      → (t : Selects) × (visit server fd (answers fd) s ≡ some t)
        × Follows t
        × (t.sent ≡ reverse_onto (reply server testfds answers fd) s.sent)
  unfolding visit add_client serve_client
  visit-Follows fd s can ready h = elim (Bool-cases (fd == server)) [
    | inl listens ↦ accepts (answers fd).accepted can.fits listens
    | inr client ↦ elim (Bool-cases ((answers fd).nread == 0)) [
      | inl closed ↦ (
        mark fd false s,
        rw client (rw closed refl),
        mark-Follows fd false s h,
        rw (ready, client, closed) refl,
      )
      | inr some_data ↦ elim can.reads [
        | inl never ↦ absurd (ground arith)
        | inr (c, comes) ↦ (
          record s { ch = some (bump c); sent = (fd, some (bump c)) ∷ s.sent },
          rw client (rw some_data (rw comes refl)),
          h,
          rw (ready, client, some_data, comes) refl,
        )
      ]
    ]
  ]
    where
      accepts :
          (r : ℤ)
          → InSet r
          → (fd == server) ≡ true
          → (t : Selects) × ((if fd == server
                then add_client r s
                else some (serve_client fd (answers fd) s))
              ≡ some t)
            × Follows t
            × (t.sent ≡ reverse_onto (reply server testfds answers fd) s.sent)
      accepts (negsuc n) within listens = absurd within
      accepts (pos d) within listens =
          let fits : ltb d fd_setsize ≡ true = ground arith in
          (
            mark d true s,
            rw listens (rw fits refl),
            mark-Follows d true s h,
            rw (ready, listens) refl,
          )

  reverse_onto-append :
      (xs ys : List (ℕ × Option ℕ)) (acc : List (ℕ × Option ℕ))
      → reverse_onto (xs ++ ys) acc ≡ reverse_onto ys (reverse_onto xs acc)
  reverse_onto-append [] ys acc = refl
  reverse_onto-append (x ∷ xs) ys acc = reverse_onto-append xs ys (x ∷ acc)

  scan-Follows :
      (n fd : ℕ) (s : Selects)
      → ((d : ℕ) → Possible (answers d))
      → Follows s
      → (t : Selects) × (scan n server fd testfds answers s ≡ some t)
        × Follows t
        × (t.sent ≡ reverse_onto (replies server testfds answers n fd) s.sent)
  unfolding scan
  scan-Follows zero fd s can h = (s, refl, h, refl)
  scan-Follows (suc n) fd s can h =
      let joins =
        reverse_onto-append (reply server testfds answers fd)
          (replies server testfds answers n (fd + 1)) s.sent in
      elim (Bool-cases (testfds fd)) [
        | inl ready ↦
            let (t, eq, h', sent) = visit-Follows fd s (can fd) ready h in
            let (u, eq', h'', sent') = scan-Follows n (fd + 1) t can h' in
            (
              u,
              rw ready (rw eq eq'),
              h'',
              sent'
                  ∙ ap (reverse_onto (replies server testfds answers n (fd + 1))) sent
                  ∙ sym joins,
            )
        | inr quiet ↦
            let (u, eq', h', sent') = scan-Follows n (fd + 1) s can h in
            let silent : reply server testfds answers fd ≡ [] = rw quiet refl in
            (
              u,
              rw quiet eq',
              h',
              sent'
                  ∙ ap (λ l. reverse_onto (l ++ replies server testfds answers n (fd + 1)) s.sent)
                      (sym silent),
            )
      ]

  -- Where the set of descriptors has just the open sockets, accept gives descriptors below
  -- FD_SETSIZE, and read delivers a byte where FIONREAD counts one: a round of the server ends
  -- without a fault, the set has again just the open sockets, and what it writes is, in the order
  -- of the descriptors, to each ready client with data its own byte and one, as the list of these
  -- answers says, and nothing else.
  pub round-replies :
      (s : Selects)
      → ((d : ℕ) → Possible (answers d))
      → Follows s
      → (t : Selects) × (round server testfds answers s ≡ some t)
        × Follows t
        × (t.sent ≡ reverse_onto (replies server testfds answers fd_setsize 0) s.sent)
  unfolding round
  round-replies s can h = scan-Follows fd_setsize 0 (record s { ch = none }) can h

pub open_server-Follows :
    (server : ℕ)
    → server < fd_setsize
    → (s : Selects) × (open_server (pos server) ≡ some s) × Follows s
unfolding open_server add_client
open_server-Follows server lt =
    let fits : ltb server fd_setsize ≡ true = ground arith in
    (mark server true empty, rw fits refl, mark-Follows server true empty (λ d. refl))
