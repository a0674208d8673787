-- ===== src/Sys/Runs.antt =====
-- What a run does: what it holds at its end, and the calls that it has made.
use os_study_code.Base.{
  ◌∙◌, ap, take-beyond, [], ℕ, ◌≤◌, ◌≡◌, refl, ◌⊎◌, inl, inr, true, false, Option, none, some, List,
  [], ◌∷◌, ◌++◌, map, take, drop, length, leb, arith, if◌then◌else◌, Option-cases, length-take,
}
use os_study_code.Base.Int.{ℤ, pos, negsuc}
use os_study_code.Sys.{
  M, content, go_on, Sys, Outcome, done, exited, fault, Call, recv_into, got, log, within, ◌>>=◌,
}
use os_study_code.Sys.Held.{Resource, fd, memory, held, is_null, give_back}
use os_study_code.Sys.Reads.{recv-none, recv-some, recv_exact}

-- A run that ends without a fault or an exit and holds `qs`.
abbrev pub Leaves : List Resource → Outcome (Unit {0}) × Sys → Type 0
Leaves qs (done u, s) = held s.calls ≡ qs
Leaves qs (exited code, s) = ⊥
Leaves qs (fault, s) = ⊥

-- A run without a fault that holds `qs` at its end, also where it exits.
abbrev pub Released : List Resource → Outcome (Unit {0}) × Sys → Type 0
Released qs (done u, s) = held s.calls ≡ qs
Released qs (exited code, s) = held s.calls ≡ qs
Released qs (fault, s) = ⊥

pub both_back :
    (c : ℕ) (p : ℤ) (have qs : List Resource)
    → is_null p ≡ false
    → have ≡ memory p ∷ fd c ∷ qs
    → give_back (fd c) (if is_null p then have else give_back (memory p) have) ≡ qs
both_back c p have qs given h = rw (h, given) (ground arith)

-- What a `read` into a buffer that is large enough does.
pub record Received (n : ℕ) (s : Sys) (b : Option (List ℕ)) (s' : Sys) : Type 0 where
  pub same_held : held s'.calls ≡ held s.calls
  pub part : (b ≡ none) ⊎ ((k : ℕ) × (b ≡ some (got n k s.stream)))

pub recv_into-none :
    (c n size : ℕ) (s : Sys)
    → s.chunks s.tick ≡ none
    → recv_into c n size s ≡ (done none, log (Call.read c n) (negsuc 0) s)
recv_into-none c n size s fails =
    let empty : leb 0 size ≡ true = ground arith in
    rw (recv-none c n s fails, ◌>>=◌) (rw (empty, within) refl)

pub recv_into-some :
    (c n size k : ℕ) (s : Sys)
    → s.chunks s.tick ≡ some k
    → n ≤ size
    → recv_into c n size s ≡ (
      done (some (got n k s.stream)),
      record (log (Call.read c n) (pos (length (got n k s.stream))) s) {
        stream = drop (length (got n k s.stream)) s.stream;
      },
    )
recv_into-some c n size k s comes le =
    let short : leb (length (got n k s.stream)) size ≡ true =
      ground (arith, length-take n (take k s.stream)) in
    rw (recv-some c n k s comes, ◌>>=◌) (rw (short, within) refl)

pub recv_into-Received :
    (c n size : ℕ) (s : Sys)
    → n ≤ size
    → (b : Option (List ℕ)) × (s' : Sys) × (recv_into c n size s ≡ (done b, s')) × Received n s b s'
recv_into-Received c n size s le = elim (Option-cases (s.chunks s.tick)) [
  | inl fails ↦ (
    none,
    log (Call.read c n) (negsuc 0) s,
    recv_into-none c n size s fails,
    record { same_held = refl; part = inl refl },
  )
  | inr (k, comes) ↦ (
    some (got n k s.stream),
    record (log (Call.read c n) (pos (length (got n k s.stream))) s) {
      stream = drop (length (got n k s.stream)) s.stream;
    },
    recv_into-some c n size k s comes le,
    record { same_held = refl; part = inr (k, refl) },
  )
]

abbrev pub made : Sys → List Call
made s = map (λ c. c.0) s.calls

pub recv_into_exact :
    (c n size k : ℕ) (xs rest : List ℕ) (s : Sys)
    → s.chunks s.tick ≡ some k
    → n ≤ k
    → length xs ≡ n
    → n ≤ size
    → s.stream ≡ xs ++ rest
    → recv_into c n size s
      ≡ (done (some xs), record (log (Call.read c n) (pos n) s) { stream = rest })
recv_into_exact c n size k xs rest s comes le e room is =
    let fits : leb (length xs) size ≡ true = ground arith in
    rw (recv_exact c n k xs rest s comes le e is, ◌>>=◌) (rw (fits, within) refl)

-- A run that ends without a fault or an exit, has made the calls and leaves `rest` unread.
abbrev pub Ends : List Call → List ℕ → Outcome (Unit {0}) × Sys → Type 0
Ends cs rest (done u, s) = (made s ≡ cs) × (s.stream ≡ rest)
Ends cs rest (exited code, s) = ⊥
Ends cs rest (fault, s) = ⊥

pub length-Received :
    (n : ℕ) (s : Sys) (b : Option (List ℕ)) (t : Sys) → Received n s b t → length (content b) ≤ n
length-Received n s b t r = elim r.part [
  | inl fails ↦ rw fails (omega arith)
  | inr (k, comes) ↦ rw comes (omega (arith, length-take n (take k s.stream)))
]

-- A run that leaves `ps`, followed by one that leaves `qs`.
pub Leaves-go_on :
    (ps qs : List Resource) (r : Outcome (Unit {0}) × Sys) (f : Unit {0} → M (Unit {0}))
    → Leaves ps r
    → ((t : Sys) → held t.calls ≡ ps → Leaves qs (f tt t))
    → Leaves qs (go_on r f)
Leaves-go_on ps qs (done u, s) f h next = next s h
Leaves-go_on ps qs (exited code, s) f h next = absurd h
Leaves-go_on ps qs (fault, s) f h next = absurd h

pub Released-go_on :
    (qs : List Resource) (r : Outcome (Unit {0}) × Sys) (f : Unit {0} → M (Unit {0}))
    → Released qs r
    → ((t : Sys) → held t.calls ≡ qs → Released qs (f tt t))
    → Released qs (go_on r f)
Released-go_on qs (done u, s) f h next = next s h
Released-go_on qs (exited code, s) f h next = h
Released-go_on qs (fault, s) f h next = absurd h

pub Leaves-Released :
    (qs : List Resource) (r : Outcome (Unit {0}) × Sys) → Leaves qs r → Released qs r
Leaves-Released qs (done u, s) h = h
Leaves-Released qs (exited code, s) h = absurd h
Leaves-Released qs (fault, s) h = absurd h

-- A `read` that takes the whole stream.
pub recv_into_all :
    (c n size k : ℕ) (bytes : List ℕ) (s : Sys)
    → s.chunks s.tick ≡ some k
    → length bytes ≤ k
    → length bytes ≤ n
    → length bytes ≤ size
    → s.stream ≡ bytes
    → recv_into c n size s
      ≡ (done (some bytes), record (log (Call.read c n) (pos (length bytes)) s) { stream = [] })
recv_into_all c n size k bytes s comes le le' room is =
    let all : got n k s.stream ≡ bytes =
      ap (got n k) is ∙ ap (take n) (take-beyond k bytes le) ∙ take-beyond n bytes le' in
    let left : drop (length bytes) s.stream ≡ [] = ap (drop (length bytes)) is ∙ drop_all bytes in
    let fits : leb (length bytes) size ≡ true = ground arith in
    rw (recv-some c n k s comes, ◌>>=◌) (rw all (rw (fits, within) (rw left refl)))
  where
    drop_all : (xs : List ℕ) → drop (length xs) xs ≡ []
    drop_all [] = refl
    drop_all (x ∷ xs) = drop_all xs
