-- ===== src/ThreadPool/Termination.antt =====
-- The destruction of the pool can always be brought to its end.
use mathlib.Core.Path.{subst}
use os_study_code.Base.{
  ℕ, zero, suc, ◌+◌, ◌*◌, ◌≤◌, ◌<◌, ◌≡◌, ◌≢◌, refl, ap, ◌⊎◌, inl, inr, Bool, true, false, some,
  List, [], ◌∷◌, arith, length, count, Bool-cases, ltb,
}
use os_study_code.ThreadPool.{
  Worker, ready, asleep, running, gone, TaskPool, get_elem?, enter, wake, finish, exit_thread,
  thread_task_post,
}
use os_study_code.ThreadPool.Post.{thread_task_post-Posted}
use os_study_code.ThreadPool.Workers.{signal-Served, enter-Served, count-has}
use os_study_code.ThreadPool.Tally.{tally, is_gone, runs, tally-set, tally-le, gone-le, runner}
use os_study_code.ThreadPool.Destroy.{
  Stage, posting, spinning, abandoned, destroyed, Closing, post_exit, exit_handler, Step, Steps,
  none_yet, onward, posts_exit, sees, frees, enters, wakes, finishes, exits, Reach,
}
use os_study_code.ThreadPool.Stages.{AtStage}
use os_study_code.ThreadPool.Turns.{enter-workers, wake-workers, enter-Awake, wake-Awake}
use os_study_code.ThreadPool.Comes.{a_worker_comes}
use os_study_code.ThreadPool.Destroyed.{
  Sound, turn-Sound, left, post-Sound, finish-Sound, exit-Sound,
}
use os_study_code.ThreadPool.Shutdown.{Closes, Reach-Sound}

abbrev works : Worker → ℕ
works ready = 0
works asleep = 0
works (running t) = 1
works gone = 0

-- A bound on the steps that are left, with the queue `xs`.
abbrev measure : Closing → List ℕ → ℕ
measure c xs = left c.stage + 2 * length xs + tally works c.pool.workers

abbrev pub Finished : Stage → Type 0
Finished st = (st ≡ abandoned) ⊎ (st ≡ destroyed)

abbrev Nearer : (e : ℕ) → Closing → List ℕ → Type 0
Nearer e c xs =
    (d : Closing) × (ys : List ℕ) × Step e c d × Sound e d ys × (measure d ys < measure c xs)

-- A worker takes the task at the head of the queue.
takes :
    (e : ℕ) (c : Closing) (x : ℕ) (xs : List ℕ) (i : ℕ)
    → Sound e c (x ∷ xs)
    → get_elem? c.pool.workers i ≡ some ready
    → Nearer e c (x ∷ xs)
takes e c x xs i s at =
    let now = enter-workers c.pool i (x ∷ xs) s.inv in
    (
      record c { pool = enter c.pool i },
      xs,
      enters i at,
      turn-Sound e c (x ∷ xs) i ready (enter c.pool i) s at refl refl
          (enter-Served c.pool i (x ∷ xs) s.inv at) now
          (enter-Awake c.pool i (x ∷ xs) s.inv at s.awake),
      omega (arith, ap (tally works) now, tally-set works c.pool.workers i ready (running x) at),
    )

-- So does one that a signal has reached.
wakes_up :
    (e : ℕ) (c : Closing) (x : ℕ) (xs : List ℕ) (i : ℕ)
    → Sound e c (x ∷ xs)
    → get_elem? c.pool.workers i ≡ some asleep
    → 0 < c.pool.pending
    → Nearer e c (x ∷ xs)
wakes_up e c x xs i s at called =
    let now = wake-workers c.pool i (x ∷ xs) s.inv in
    (
      record c { pool = wake c.pool i },
      xs,
      wakes i at called,
      turn-Sound e c (x ∷ xs) i asleep (wake c.pool i) s at refl refl
          (signal-Served c.pool i (x ∷ xs) s.inv at) now
          (wake-Awake c.pool i (x ∷ xs) s.inv at called s.awake),
      omega (arith, ap (tally works) now, tally-set works c.pool.workers i asleep (running x) at),
    )

-- A worker comes back from a handler of another task.
comes_back :
    (e : ℕ) (c : Closing) (xs : List ℕ) (i t : ℕ)
    → Sound e c xs
    → get_elem? c.pool.workers i ≡ some (running t)
    → t ≢ e
    → Nearer e c xs
unfolding finish
comes_back e c xs i t s at other = (
  record c { pool = finish c.pool i t },
  xs,
  finishes i t at other,
  finish-Sound e c xs i t s at other,
  omega (arith, tally-set works c.pool.workers i (running t) ready at),
)

-- The worker that runs the exit task ends.
goes :
    (e : ℕ) (c : Closing) (xs : List ℕ) (i : ℕ)
    → Sound e c xs
    → get_elem? c.pool.workers i ≡ some (running e)
    → Nearer e c xs
unfolding exit_handler exit_thread
goes e c xs i s at = (
  exit_handler i c,
  xs,
  exits i at,
  exit-Sound e c xs i s at,
  omega (arith, tally-set works c.pool.workers i (running e) gone at),
)

-- While the exit task is queued, some worker gets on.
works_on :
    (e : ℕ) (c : Closing) (xs : List ℕ)
    → Sound e c xs
    → suc (tally is_gone c.pool.workers) ≤ length c.pool.workers
    → count e xs ≡ 1
    → tally (runs e) c.pool.workers ≡ 0
    → Nearer e c xs
works_on e c [] s here queued idle = absurd (omega (arith, queued))
works_on e c (x ∷ xs) s here queued idle =
    let (i, comes) = a_worker_comes c.pool x xs s.awake here in
    elim comes [
      | inl at ↦ takes e c x xs i s at
      | inr (inl (at, called)) ↦ wakes_up e c x xs i s at called
      | inr (inr (t, at)) ↦
          let most = tally-le (runs e) c.pool.workers i (running t) at in
          comes_back e c (x ∷ xs) i t s at (ground (arith, most, idle))
    ]

-- The main thread posts, or frees the pool after its rounds.
main_on :
    (e : ℕ) (c : Closing) (xs : List ℕ) (n : ℕ)
    → e ≢ 0
    → Sound e c xs
    → c.stage ≡ posting n
    → AtStage e (posting n) c.lock c.pool.workers xs
    → Nearer e c xs
unfolding post_exit
main_on e c xs n real s is at = elim (Bool-cases (ltb n 4)) [
  | inl more ↦
      let lt : n < 4 = ground arith in
      let (ys, t, less, same) =
        post-Sound e true true c xs n (thread_task_post true true c.pool e) s lt at
          (thread_task_post-Posted true true c.pool xs e s.inv real (count-has e xs at.0)) in
      (
        post_exit true true e n c,
        ys,
        posts_exit true true n is lt,
        t,
        omega (arith, less, ap left is, ap (tally works) same),
      )
  | inr over ↦
      let enough : 4 ≤ n = ground arith in
      (
        record c { stage = destroyed },
        xs,
        frees n is enough,
        record {
          inv = s.inv;
          awake = s.awake;
          size = s.size;
          at = (
            omega (arith, at.2, enough, gone-le c.pool.workers, s.size),
            elim at.3 [ inl first ↦ absurd (omega (arith, first, enough)) | inr empty ↦ empty ],
          );
        },
        omega (arith, ap left is),
      )
]

spins_on :
    (e : ℕ) (c : Closing) (xs : List ℕ) (n : ℕ) (lock : Bool)
    → Sound e c xs
    → c.stage ≡ spinning n
    → c.lock ≡ lock
    → AtStage e (spinning n) lock c.pool.workers xs
    → Nearer e c xs
spins_on e c xs n true s is locked at = elim (Bool-cases (ltb 0 (tally (runs e) c.pool.workers))) [
  | inl one ↦ let (i, here) = runner e c.pool.workers (ground arith) in goes e c xs i s here
  | inr no_one ↦
      let idle : tally (runs e) c.pool.workers ≡ 0 = ground arith in
      works_on e c xs s (omega (arith, at.1, at.2, s.size)) (omega (arith, at.0, idle)) idle
]
spins_on e c xs n false s is unlocked at = (
  record c { stage = posting (n + 1) },
  xs,
  sees n is unlocked,
  record { inv = s.inv; awake = s.awake; size = s.size; at = (at.0, at.1, at.2, inr at.3) },
  omega (arith, ap left is, at.2, s.size, gone-le c.pool.workers),
)

next_step :
    (e : ℕ) (c : Closing) (xs : List ℕ) (st : Stage)
    → e ≢ 0
    → Sound e c xs
    → c.stage ≡ st
    → Finished c.stage ⊎ Nearer e c xs
next_step e c xs (posting n) real s is =
    inr (main_on e c xs n real s is (subst (λ x. AtStage e x c.lock c.pool.workers xs) is s.at))
next_step e c xs (spinning n) real s is =
    inr (
      spins_on e c xs n c.lock s is refl
        (subst (λ x. AtStage e x c.lock c.pool.workers xs) is s.at))
next_step e c xs abandoned real s is = inl (inl is)
next_step e c xs destroyed real s is = inl (inr is)

-- The end of a run.
abbrev pub Ends : (e : ℕ) → Closing → Type 0
Ends e c = (d : Closing) × Steps e c d × Finished d.stage

Ends-within :
    (bound e : ℕ) (c : Closing) (xs : List ℕ)
    → e ≢ 0
    → Sound e c xs
    → measure c xs < bound
    → Ends e c
Ends-within zero e c xs real s small = absurd (omega arith)
Ends-within (suc bound) e c xs real s small = elim (next_step e c xs c.stage real s refl) [
  | inl over ↦ (c, none_yet, over)
  | inr (d, ys, step, s', less) ↦
      let (f, steps, over) = Ends-within bound e d ys real s' (omega arith) in
      (f, onward step steps, over)
]

-- From every state that thread_pool_destroy and the workers get to, on such a pool, some steps
-- lead to the end, where the pool is freed or the function has given up after a failed post: no
-- state is a deadlock, and none is a trap, and no step of them is a wake-up without a signal.
pub Reach-Ends :
    (next : ℕ → ℕ) (e : ℕ) (p : TaskPool) (c : Closing) → Closes next e p → Reach e p c → Ends e c
Reach-Ends next e p c k r =
    let (xs, s) = Reach-Sound next e p k r in
    Ends-within (suc (measure c xs)) e c xs k.real s (omega arith)
