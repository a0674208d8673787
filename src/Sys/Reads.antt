-- ===== src/Sys/Reads.antt =====
-- What `recv` does where the bytes asked for are there.
use os_study_code.Base.{
  ℕ, zero, suc, [], ◌∷◌, ◌≤◌, ◌≡◌, refl, ap, ◌∙◌, some, List, ◌++◌, drop, length, drop-append,
  arith, none,
}
use os_study_code.Base.Int.{pos, negsuc}
use os_study_code.Sys.{Sys, Call, done, recv, got, log}

got-append : (n k : ℕ) (xs rest : List ℕ) → length xs ≡ n → n ≤ k → got n k (xs ++ rest) ≡ xs
got-append zero k [] rest e le = refl
got-append zero k (x ∷ xs) rest e le = absurd (omega arith)
got-append (suc n) k [] rest e le = absurd (omega arith)
got-append (suc n) zero (x ∷ xs) rest e le = absurd (omega arith)
got-append (suc n) (suc k) (x ∷ xs) rest e le =
    ap (λ l. x ∷ l) (got-append n k xs rest (omega arith) (omega arith))

pub recv_exact :
    (fd n k : ℕ) (xs rest : List ℕ) (s : Sys)
    → s.chunks s.tick ≡ some k
    → n ≤ k
    → length xs ≡ n
    → s.stream ≡ xs ++ rest
    → recv fd n s ≡ (done (some xs), record (log (Call.read fd n) (pos n) s) { stream = rest })
unfolding recv
recv_exact fd n k xs rest s comes le e is =
    let all : got n k s.stream ≡ xs = ap (got n k) is ∙ got-append n k xs rest e le in
    let left : drop n s.stream ≡ rest = ap (drop n) is ∙ drop-append n xs rest e in
    rw (comes, recv) (rw (all, e, left) refl)

pub recv-none :
    (fd n : ℕ) (s : Sys)
    → s.chunks s.tick ≡ none
    → recv fd n s ≡ (done none, log (Call.read fd n) (negsuc 0) s)
unfolding recv
recv-none fd n s fails = rw (fails, recv) refl

pub recv-some :
    (fd n k : ℕ) (s : Sys)
    → s.chunks s.tick ≡ some k
    → recv fd n s ≡ (
      done (some (got n k s.stream)),
      record (log (Call.read fd n) (pos (length (got n k s.stream))) s) {
        stream = drop (length (got n k s.stream)) s.stream;
      },
    )
unfolding recv
recv-some fd n k s comes = rw (comes, recv) refl
