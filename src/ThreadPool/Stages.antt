-- ===== src/ThreadPool/Stages.antt =====
-- What holds at each stage of `thread_pool_destroy`, and the steps of the workers.
use os_study_code.Base.{
  ℕ, suc, ◌+◌, ◌≤◌, ◌<◌, ◌≡◌, ◌≢◌, refl, ap, ◌∙◌, ◌⊎◌, inl, inr, Bool, true, false, some, List, [],
  ◌∷◌, ◌++◌, arith, length, count,
}
use os_study_code.ThreadPool.{Worker, ready, running, gone, get_elem?, set}
use os_study_code.ThreadPool.Tally.{
  tally, is_gone, runs, tally-set, tally-le, gone-lt, served, rest, count-rest,
}
use os_study_code.ThreadPool.Destroy.{Stage, posting, spinning, abandoned, destroyed}

-- The last task of the queue, if there is one.
abbrev pub EndsWith : ℕ → List ℕ → Type 0
EndsWith e [] = Unit
EndsWith e (x ∷ []) = x ≡ e
EndsWith e (x ∷ y ∷ ys) = EndsWith e (y ∷ ys)

-- Where the exit task is at each stage, and how many workers are gone.
abbrev pub AtStage : (e : ℕ) → Stage → (lock : Bool) → List Worker → List ℕ → Type 0
AtStage e (posting n) lock ws xs =
    (count e xs ≡ 0) × (tally (runs e) ws ≡ 0) × (tally is_gone ws ≡ n) × ((n ≡ 0) ⊎ (xs ≡ []))
AtStage e (spinning n) true ws xs =
    (count e xs + tally (runs e) ws ≡ 1) × (tally is_gone ws ≡ n) × (n < 4) × EndsWith e xs
AtStage e (spinning n) false ws xs =
    (count e xs ≡ 0) × (tally (runs e) ws ≡ 0) × (tally is_gone ws ≡ n + 1) × (xs ≡ [])
AtStage e abandoned lock ws xs = Unit
AtStage e destroyed lock ws xs = (tally is_gone ws ≡ 4) × (xs ≡ [])

EndsWith-rest : (e : ℕ) (xs : List ℕ) → EndsWith e xs → EndsWith e (rest xs)
EndsWith-rest e [] h = tt
EndsWith-rest e (x ∷ []) h = tt
EndsWith-rest e (x ∷ y ∷ ys) h = h

pub EndsWith-append : (e : ℕ) (xs : List ℕ) → EndsWith e (xs ++ (e ∷ []))
EndsWith-append e [] = refl
EndsWith-append e (x ∷ []) = refl
EndsWith-append e (x ∷ y ∷ ys) = EndsWith-append e (y ∷ ys)

EndsWith-empty : (e : ℕ) (xs : List ℕ) → EndsWith e xs → count e xs ≡ 0 → xs ≡ []
EndsWith-empty e [] h none_left = refl
EndsWith-empty e (x ∷ []) h none_left = ground arith
EndsWith-empty e (x ∷ y ∷ ys) h none_left =
    let never = EndsWith-empty e (y ∷ ys) h (ground arith) in cc

rest-empty : (xs : List ℕ) → xs ≡ [] → rest xs ≡ []
rest-empty xs h = ap rest h

served-stays : (xs : List ℕ) → is_gone (served xs) ≡ 0
served-stays [] = refl
served-stays (x ∷ xs) = refl

pub turn-AtStage :
    (e : ℕ) (st : Stage) (lock : Bool) (ws : List Worker) (xs : List ℕ) (i : ℕ) (a : Worker)
    → get_elem? ws i ≡ some a
    → runs e a ≡ 0
    → is_gone a ≡ 0
    → length ws ≡ 4
    → AtStage e st lock ws xs
    → AtStage e st lock (set ws i (served xs)) (rest xs)
turn-AtStage e (posting n) lock ws xs i a at idle here size (c, r, g, q) = (
  omega (arith, count-rest e xs, c),
  omega (arith, count-rest e xs, c, r, tally-set (runs e) ws i a (served xs) at),
  omega (arith, g, tally-set is_gone ws i a (served xs) at, served-stays xs),
  elim q [ inl first ↦ inl first | inr empty ↦ inr (rest-empty xs empty) ],
)
turn-AtStage e (spinning n) true ws xs i a at idle here size (c, g, lt, q) = (
  omega (arith, count-rest e xs, c, tally-set (runs e) ws i a (served xs) at),
  omega (arith, g, tally-set is_gone ws i a (served xs) at, served-stays xs),
  lt,
  EndsWith-rest e xs q,
)
turn-AtStage e (spinning n) false ws xs i a at idle here size (c, r, g, q) = (
  omega (arith, count-rest e xs, c),
  omega (arith, count-rest e xs, c, r, tally-set (runs e) ws i a (served xs) at),
  omega (arith, g, tally-set is_gone ws i a (served xs) at, served-stays xs),
  rest-empty xs q,
)
turn-AtStage e abandoned lock ws xs i a at idle here size h = tt
turn-AtStage e destroyed lock ws xs i a at idle here size (g, q) =
    absurd (omega (arith, g, size, gone-lt ws i a at here))

-- A worker goes from a handler of another task to the head of its loop.
pub finish-AtStage :
    (e : ℕ) (st : Stage) (lock : Bool) (ws : List Worker) (xs : List ℕ) (i t : ℕ)
    → get_elem? ws i ≡ some (running t)
    → t ≢ e
    → AtStage e st lock ws xs
    → AtStage e st lock (set ws i ready) xs
finish-AtStage e st lock ws xs i t at other h =
    let kept = tally-set is_gone ws i (running t) ready at in
    let kept' = tally-set (runs e) ws i (running t) ready at in
    let idle : runs e (running t) ≡ 0 = ground arith in
    go st lock h (omega (arith, kept)) (omega (arith, kept', idle))
  where
    go :
        (st : Stage) (lock : Bool)
        → AtStage e st lock ws xs
        → tally is_gone (set ws i ready) ≡ tally is_gone ws
        → tally (runs e) (set ws i ready) ≡ tally (runs e) ws
        → AtStage e st lock (set ws i ready) xs
    go (posting n) lock (c, r, g, q) a b = (c, b ∙ r, a ∙ g, q)
    go (spinning n) true (c, g, lt, q) a b = (omega (arith, c, b), a ∙ g, lt, q)
    go (spinning n) false (c, r, g, q) a b = (c, b ∙ r, a ∙ g, q)
    go abandoned lock h a b = tt
    go destroyed lock (g, q) a b = (a ∙ g, q)

-- The exit task runs only while the main thread spins, and then nothing is queued.
pub exit-AtStage :
    (e : ℕ) (st : Stage) (lock : Bool) (ws : List Worker) (xs : List ℕ) (i : ℕ)
    → get_elem? ws i ≡ some (running e)
    → length ws ≡ 4
    → AtStage e st lock ws xs
    → AtStage e st false (set ws i gone) xs
exit-AtStage e st lock ws xs i at size h =
    let kept = tally-set is_gone ws i (running e) gone at in
    let kept' = tally-set (runs e) ws i (running e) gone at in
    let one : runs e (running e) ≡ 1 = ground arith in
    let most = tally-le (runs e) ws i (running e) at in
    go st lock h (omega (arith, kept)) (omega (arith, kept', one)) (omega (arith, most, one))
  where
    go :
        (st : Stage) (lock : Bool)
        → AtStage e st lock ws xs
        → tally is_gone (set ws i gone) ≡ suc (tally is_gone ws)
        → suc (tally (runs e) (set ws i gone)) ≡ tally (runs e) ws
        → 1 ≤ tally (runs e) ws
        → AtStage e st false (set ws i gone) xs
    go (posting n) lock (c, r, g, q) a b some_run = absurd (omega (arith, r, some_run))
    go (spinning n) true (c, g, lt, q) a b some_run = (
      omega (arith, c, some_run),
      omega (arith, c, b),
      omega (arith, a, g),
      EndsWith-empty e xs q (omega (arith, c, some_run)),
    )
    go (spinning n) false (c, r, g, q) a b some_run = absurd (omega (arith, r, some_run))
    go abandoned lock h a b some_run = tt
    go destroyed lock (g, q) a b some_run =
        absurd (omega (arith, g, size, gone-lt ws i (running e) at refl))
