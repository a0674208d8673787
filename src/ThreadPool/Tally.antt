-- ===== src/ThreadPool/Tally.antt =====
-- How many workers are in a state, and in which one a worker is after its turn.
use os_study_code.Base.{
  ℕ, zero, suc, ◌+◌, ◌≤◌, ◌≡◌, refl, ap, Bool-cases, eq_of_==, true, false, inl, inr, some, List,
  [], ◌∷◌, arith, ◌==◌, if◌then◌else◌, length, count,
}
use os_study_code.ThreadPool.{
  Worker, ready, asleep, running, gone, TaskPool, get_elem?, set, serve, dequeue,
}
use os_study_code.ThreadPool.Queue.{IsQueue}

abbrev pub tally : (Worker → ℕ) → List Worker → ℕ
tally f [] = 0
tally f (w ∷ ws) = f w + tally f ws

abbrev pub is_gone : Worker → ℕ
is_gone ready = 0
is_gone asleep = 0
is_gone (running t) = 0
is_gone gone = 1

abbrev pub runs : ℕ → Worker → ℕ
runs e ready = 0
runs e asleep = 0
runs e (running t) = if t == e then 1 else 0
runs e gone = 0

pub tally-set :
    (f : Worker → ℕ) (ws : List Worker) (i : ℕ) (a b : Worker)
    → get_elem? ws i ≡ some a
    → tally f (set ws i b) + f a ≡ tally f ws + f b
tally-set f [] i a b e = cc
tally-set f (w ∷ ws) zero a b e =
    let same : w ≡ a = cc in let even = ap f same in omega (arith, even)
tally-set f (w ∷ ws) (suc i) a b e = omega (arith, tally-set f ws i a b e)

pub tally-le :
    (f : Worker → ℕ) (ws : List Worker) (i : ℕ) (a : Worker)
    → get_elem? ws i ≡ some a
    → f a ≤ tally f ws
tally-le f [] i a e = cc
tally-le f (w ∷ ws) zero a e = let same : w ≡ a = cc in let even = ap f same in omega (arith, even)
tally-le f (w ∷ ws) (suc i) a e = omega (arith, tally-le f ws i a e)

is_gone-le : (w : Worker) → is_gone w ≤ 1
is_gone-le ready = omega arith
is_gone-le asleep = omega arith
is_gone-le (running t) = omega arith
is_gone-le gone = omega arith

pub gone-le : (ws : List Worker) → tally is_gone ws ≤ length ws
gone-le [] = omega arith
gone-le (w ∷ ws) = omega (arith, is_gone-le w, gone-le ws)

-- With one worker that is not gone.
pub gone-lt :
    (ws : List Worker) (i : ℕ) (a : Worker)
    → get_elem? ws i ≡ some a
    → is_gone a ≡ 0
    → suc (tally is_gone ws) ≤ length ws
gone-lt [] i a e at = cc
gone-lt (w ∷ ws) zero a e here =
    let same : w ≡ a = cc in let even = ap is_gone same in omega (arith, even, here, gone-le ws)
gone-lt (w ∷ ws) (suc i) a e here = omega (arith, is_gone-le w, gone-lt ws i a e here)

-- If not all are gone there is one that is not.
pub someone :
    (ws : List Worker)
    → suc (tally is_gone ws) ≤ length ws
    → (i : ℕ) × (a : Worker) × (get_elem? ws i ≡ some a) × (is_gone a ≡ 0)
someone [] le = absurd (omega arith)
someone (ready ∷ ws) le = (0, ready, refl, refl)
someone (asleep ∷ ws) le = (0, asleep, refl, refl)
someone (running t ∷ ws) le = (0, running t, refl, refl)
someone (gone ∷ ws) le = let (i, a, e, here) = someone ws (omega arith) in (suc i, a, e, here)

pub runner :
    (e : ℕ) (ws : List Worker)
    → 1 ≤ tally (runs e) ws
    → (i : ℕ) × (get_elem? ws i ≡ some (running e))
runner e [] le = absurd (omega arith)
runner e (ready ∷ ws) le = let (i, at) = runner e ws (omega arith) in (suc i, at)
runner e (asleep ∷ ws) le = let (i, at) = runner e ws (omega arith) in (suc i, at)
runner e (gone ∷ ws) le = let (i, at) = runner e ws (omega arith) in (suc i, at)
runner e (running t ∷ ws) le = elim (Bool-cases (t == e)) [
  | inl hit ↦ (0, ap (λ x. some (running x)) (eq_of_== t e hit))
  | inr miss ↦
      let more : 1 ≤ tally (runs e) ws = ground arith in
      let (i, at) = runner e ws more in (suc i, at)
]

-- What a worker turns to that finds the queue so.
abbrev pub served : List ℕ → Worker
served [] = asleep
served (x ∷ xs) = running x

abbrev pub rest : List ℕ → List ℕ
rest [] = []
rest (x ∷ xs) = xs

-- A turn of a worker that is not in a handler.
pub count-rest : (e : ℕ) (xs : List ℕ) → count e xs ≡ count e (rest xs) + runs e (served xs)
count-rest e [] = refl
count-rest e (x ∷ xs) = ground arith

pub serve-workers :
    (p : TaskPool) (i : ℕ) (xs : List ℕ)
    → IsQueue p.links xs
    → (serve p i).workers ≡ set p.workers i (served xs)
unfolding serve dequeue
serve-workers p i [] q =
    let null : (p.links.first == 0) ≡ true = ground (arith, q.chain) in rw null refl
serve-workers p i (x ∷ xs) q =
    let full : (p.links.first == 0) ≡ false = ground (arith, q.chain.0, q.chain.1) in
    rw full (ap (λ y. set p.workers i (running y)) q.chain.0)
