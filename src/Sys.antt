-- ===== src/Sys.antt =====
-- The system calls of the programs: what they return is a parameter, and each one is recorded.
--
-- A program is a function of the state `Sys`. The result of the call number `n` is `results n`, and
-- a `read` delivers at most as many bytes of the stream as `chunks n` says and as the caller asks
-- for, as read(2) documents; `none` is its error. `calls` has the calls made with their results,
-- the latest first. `exited` is a call of `exit`, and `fault` an access outside an object.
pub mod Held
pub mod Reads
pub mod Runs
use os_study_code.Base.{
  ℕ, ◌+◌, Bool, true, false, ◌&&◌, Option, none, some, List, [], ◌∷◌, take, drop, length, leb, ◌==◌,
  if◌then◌else◌, arith,
}
use os_study_code.Base.Int.{ℤ, pos, negsuc, pos_part, neg_part}

-- The calls of pthreads(7) that the programs make.
pub data Pthread : Type 0 where
  mutexattr_init mutexattr_settype mutexattr_destroy : Pthread
  mutex_init mutex_destroy mutex_lock mutex_unlock : Pthread
  cond_init cond_destroy cond_signal cond_wait : Pthread
  attr_init attr_setdetachstate attr_destroy create : Pthread

-- A descriptor is a number; `alloc` is malloc(3) and `free` is free(3).
pub data Call : Type 0 where
  socket : Call
  setsockopt : (fd : ℕ) → Call
  bind : (fd : ℕ) → Call
  listen : (fd backlog : ℕ) → Call
  connect : (fd : ℕ) → Call
  accept : (fd : ℕ) → Call
  read : (fd n : ℕ) → Call
  write : (fd : ℕ) → List ℕ → Call
  close : (fd : ℕ) → Call
  alloc : (n : ℕ) → Call
  free : (p : ℤ) → Call
  print : List ℕ → Call
  epoll_ctl : (op fd events : ℕ) → Call
  pthread : Pthread → Call

pub record Sys : Type 0 where
  pub results : ℕ → ℤ
  pub chunks : ℕ → Option ℕ
  pub tick : ℕ
  pub stream : List ℕ
  pub calls : List (Call × ℤ)

pub data Outcome {ℓ} (A : Type ℓ) : Type ℓ where
  done : A → Outcome A
  exited : (code : ℕ) → Outcome A
  fault : Outcome A

abbrev pub M : Type 0 → Type 0
M A = Sys → Outcome A × Sys

abbrev pub go_on : {A B : Type 0} → Outcome A × Sys → (A → M B) → Outcome B × Sys
go_on (done a, s) f = f a s
go_on (exited code, s) f = (exited code, s)
go_on (fault, s) f = (fault, s)

infixl 5 ◌>>=◌ ◌>>◌
abbrev pub ◌>>=◌ : {A B : Type 0} → M A → (A → M B) → M B
◌>>=◌ m f s = go_on (m s) f

abbrev pub ◌>>◌ : {A B : Type 0} → M A → M B → M B
m >> k = m >>= λ _. k

abbrev pub return : {A : Type 0} → A → M A
return a s = (done a, s)

abbrev pub exit : {A : Type 0} → ℕ → M A
exit code s = (exited code, s)

-- An access that has to lie inside its object.
abbrev pub within : Bool → M (Unit {0})
within true s = (done tt, s)
within false s = (fault, s)

abbrev pub log : Call → ℤ → Sys → Sys
log c r s = record s { tick = s.tick + 1; calls = (c, r) ∷ s.calls }

unfoldable pub invoke : Call → M ℤ
invoke c s = (done (s.results s.tick), log c (s.results s.tick) s)

abbrev pub got : ℕ → ℕ → List ℕ → List ℕ
got n k bytes = take n (take k bytes)

unfoldable pub recv : (fd n : ℕ) → M (Option (List ℕ))
recv fd n s = elim (s.chunks s.tick) [
  | none ↦ (done none, log (read fd n) (negsuc 0) s)
  | some k ↦
      let bytes = got n k s.stream in
      (
        done (some bytes),
        record (log (read fd n) (pos (length bytes)) s) { stream = drop (length bytes) s.stream },
      )
]

abbrev pub content : Option (List ℕ) → List ℕ
content none = []
content (some bytes) = bytes

-- A `read` into a buffer of `size` bytes.
abbrev pub recv_into : (fd n size : ℕ) → M (Option (List ℕ))
recv_into fd n size = do bytes ← recv fd n; within (leb (length (content bytes)) size); return bytes
