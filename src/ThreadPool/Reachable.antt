-- ===== src/ThreadPool/Reachable.antt =====
-- Every state that four workers and any posts can reach.
use os_study_code.Base.{
  length-set, ℕ, ◌+◌, ◌-◌, ◌<◌, ◌≤◌, ◌≡◌, refl, sym, ap, ◌∙◌, ◌≢◌, ◌⊎◌, inl, inr, Bool, some, List,
  [], ◌∷◌, ◌++◌, arith, ◌==◌, Bool-cases, length, count, count-append,
}
use mathlib.Core.Path.{subst}
use os_study_code.Base.Int.{pos, ◌≤ℤ◌}
use os_study_code.ThreadPool.{
  ready, asleep, running, gone, TaskPool, get_elem?, thread_pool_init, thread_task_post, dequeue,
  wake, serve, enter, finish, exit_thread, default_threads_num, default_queue_num,
}
use os_study_code.ThreadPool.Queue.{IsQueue}
use os_study_code.ThreadPool.Post.{Inv, thread_pool_init-Inv, Posted, thread_task_post-Posted}
use os_study_code.ThreadPool.Tally.{tally, runs, is_gone, rest}
use os_study_code.ThreadPool.Awake.{Awake, runs-has, finish-Awake, exit-Awake}
use os_study_code.ThreadPool.Turns.{
  Refused-Awake, Accepted-Awake, enter-Awake, wake-Awake, early-Awake,
}
use os_study_code.ThreadPool.Comes.{Coming, a_worker_comes}
use os_study_code.ThreadPool.Workers.{
  signal-Served, finish-Inv, wakes_early, Served, enter-Served, wake-Served, set-Inv, Step, posts,
  enters, wakes, finishes, exits, Reach, start, later, Sizes, count-has, sleepers-le,
}

-- What holds in every reachable state, with the tasks that are queued.
pub record Good (p : TaskPool) (xs : List ℕ) : Type 0 where
  pub inv : Inv p xs
  pub sizes : Sizes p
  pub awake : Awake p xs

not_queued :
    (p : TaskPool) (xs : List ℕ) (t : ℕ)
    → Inv p xs
    → count t p.posted ≡ count t p.started
    → count t xs ≡ 0
not_queued p xs t inv e = omega (arith, ap (count t) inv.order, e, count-append t p.started xs)

Posted-Awake :
    (locks signals : Bool) (p : TaskPool) (xs : List ℕ) (t : ℕ) (r : Bool × TaskPool)
    → Posted locks signals p xs t r
    → count t xs ≡ 0
    → tally (runs t) p.workers ≡ 0
    → Awake p xs
    → (ys : List ℕ) × Inv r.1 ys × Awake r.1 ys
Posted-Awake locks signals p xs t (done, q) (inl r) new idle w =
    (xs, r.1.inv, Refused-Awake p xs q r.1 w)
Posted-Awake locks signals p xs t (done, q) (inr r) new idle w =
    (xs ++ (t ∷ []), r.1.inv, Accepted-Awake p xs t q r.1 new idle w)

Served-Inv : (p q : TaskPool) (i : ℕ) (xs : List ℕ) → Served p i xs q → Inv q (rest xs)
Served-Inv p q i [] s = s.0
Served-Inv p q i (x ∷ xs) s = s.0

thread_task_post-sizes :
    (locks signals : Bool) (p : TaskPool) (t : ℕ)
    → ((thread_task_post locks signals p t).1.workers ≡ p.workers)
      × ((thread_task_post locks signals p t).1.max_queue ≡ p.max_queue)
unfolding thread_task_post
thread_task_post-sizes locks signals p t = (ground arith, ground arith)

serve-sizes :
    (p : TaskPool) (i : ℕ)
    → (length (serve p i).workers ≡ length p.workers) × ((serve p i).max_queue ≡ p.max_queue)
unfolding serve
serve-sizes p i = elim (Bool-cases (p.links.first == 0)) [
  | inl null ↦ rw null (length-set p.workers i asleep, refl)
  | inr full ↦ rw full (length-set p.workers i (running (dequeue p.links).0), refl)
]

Step-Sizes : {p q : TaskPool} → Step p q → Sizes p → Sizes q
unfolding enter finish exit_thread wake
Step-Sizes {p} (posts locks signals t ne old idle) s =
    let (a, b) = thread_task_post-sizes locks signals p t in
    record { workers = ap length a ∙ s.workers; max = b ∙ s.max }
Step-Sizes {p} (enters i e) s =
    let (a, b) = serve-sizes (record p { waiting = _ }) i in
    record { workers = a ∙ s.workers; max = b ∙ s.max }
Step-Sizes {p} (wakes i e called) s =
    let (a, b) = serve-sizes (record p { pending = p.pending - 1 }) i in
    record { workers = a ∙ s.workers; max = b ∙ s.max }
Step-Sizes {p} (finishes i t e) s = record {
  workers = length-set p.workers i ready ∙ s.workers;
  max = s.max;
}
Step-Sizes {p} (exits i t e) s = record {
  workers = length-set p.workers i gone ∙ s.workers;
  max = s.max;
}

Step-Awake :
    {p q : TaskPool} {xs : List ℕ}
    → Step p q
    → Inv p xs
    → Awake p xs
    → (ys : List ℕ) × Inv q ys × Awake q ys
unfolding exit_thread
Step-Awake {p} {xs} (posts locks signals t ne old idle) inv w =
    let new = not_queued p xs t inv old in
    Posted-Awake locks signals p xs t (thread_task_post locks signals p t)
      (thread_task_post-Posted locks signals p xs t inv ne (count-has t xs new)) new idle w
Step-Awake {p} {xs} (enters i e) inv w =
    (rest xs, Served-Inv p (enter p i) i xs (enter-Served p i xs inv e), enter-Awake p i xs inv e w)
Step-Awake {p} {xs} (wakes i e called) inv w = (
  rest xs,
  Served-Inv p (wake p i) i xs (signal-Served p i xs inv e),
  wake-Awake p i xs inv e called w,
)
Step-Awake {p} {xs} (finishes i t e) inv w =
    (xs, finish-Inv p i t xs inv e (runs-has p xs i t w e), finish-Awake p xs i t e w)
Step-Awake {p} {xs} (exits i t e) inv w =
    (xs, set-Inv p i t gone xs inv e refl, exit-Awake p xs i t e w)

-- In every reachable state the pointers hold a queue of distinct tasks, waiting is its length
-- less the number of sleeping workers and at most max_queue, and the tasks posted so far are, in
-- order, those started and those in the queue: first come first served, and each post is started
-- at most once. A task is in the queue or in a handler once at most, and is freed at most as
-- often as it was started; and where a sleeping worker has not been signalled, the signalled
-- workers and those before the loop are at least as many as the tasks in the queue.
pub Reach-Good : (next : ℕ → ℕ) {p : TaskPool} → Reach next p → (xs : List ℕ) × Good p xs
unfolding thread_pool_init
Reach-Good next start = (
  [],
  record {
    inv = thread_pool_init-Inv next;
    sizes = record { workers = refl; max = refl };
    awake = record {
      fits = omega arith;
      alert = inl refl;
      apart = λ t. omega arith;
      freed_once = λ t. omega arith;
    };
  },
)
Reach-Good next (later r st) =
    let (xs, g) = Reach-Good next r in
    let (ys, inv, w) = Step-Awake st g.inv g.awake in
    (ys, record { inv = inv; sizes = Step-Sizes st g.sizes; awake = w })
Reach-Good next (wakes_early {p} i r e early) =
    let (xs, g) = Reach-Good next r in
    let (a, b) = serve-sizes p i in
    (
      rest xs,
      record {
        inv = Served-Inv p (serve p i) i xs (wake-Served p i xs g.inv e);
        sizes = record { workers = a ∙ g.sizes.workers; max = b ∙ g.sizes.max };
        awake = early-Awake p i xs g.inv e early g.awake;
      },
    )

-- In every reachable state the queue holds at most the default limit of 65535 tasks and one for
-- each of the four workers.
pub Reach-bound :
    (next : ℕ → ℕ) {p : TaskPool}
    → Reach next p
    → (xs : List ℕ) × IsQueue p.links xs × (length xs ≤ default_queue_num + default_threads_num)
Reach-bound next {p} r =
    let (xs, g) = Reach-Good next r in
    let most : p.waiting ≤ℤ pos default_queue_num =
      subst (λ m. p.waiting ≤ℤ m) g.sizes.max g.inv.bounded in
    (xs, g.inv.queue, omega (arith, most, g.inv.balance, g.sizes.workers, sleepers-le p.workers))

started_of :
    (p q : TaskPool) (i x : ℕ) (xs : List ℕ)
    → p.links.first ≡ x
    → Served p i (x ∷ xs) q
    → (get_elem? q.workers i ≡ some (running p.links.first))
      × (q.started ≡ p.started ++ (p.links.first ∷ []))
started_of p q i x xs e s = (
  subst (λ y. get_elem? q.workers i ≡ some (running y)) (sym e) s.1,
  subst (λ y. q.started ≡ p.started ++ (y ∷ [])) (sym e) s.2,
)

-- A worker is in a handler, or one starts the task at the head of the queue.
abbrev pub GetsOn : TaskPool → Type 0
GetsOn p =
    ((i : ℕ) × (t : ℕ) × (get_elem? p.workers i ≡ some (running t)))
    ⊎ ((i : ℕ) × (q : TaskPool) × Step p q
        × (get_elem? q.workers i ≡ some (running p.links.first))
        × (q.started ≡ p.started ++ (p.links.first ∷ [])))

gets_on : (p : TaskPool) (i x : ℕ) (xs : List ℕ) → Inv p (x ∷ xs) → Coming p i → GetsOn p
gets_on p i x xs inv (inl e) =
    let (a, b) =
      started_of p (enter p i) i x xs inv.queue.chain.0 (enter-Served p i (x ∷ xs) inv e) in
    inr (i, enter p i, enters i e, a, b)
gets_on p i x xs inv (inr (inl (e, called))) =
    let (a, b) =
      started_of p (wake p i) i x xs inv.queue.chain.0 (signal-Served p i (x ∷ xs) inv e) in
    inr (i, wake p i, wakes i e called, a, b)
gets_on p i x xs inv (inr (inr (t, e))) = inl (i, t, e)

progress_of :
    (p : TaskPool) (xs : List ℕ)
    → Good p xs
    → p.links.first ≢ 0
    → tally is_gone p.workers < default_threads_num
    → GetsOn p
progress_of p [] g ne left = absurd (ne g.inv.queue.chain)
progress_of p (x ∷ xs) g ne left =
    let (i, c) = a_worker_comes p x xs g.awake (omega (arith, left, g.sizes.workers)) in
    gets_on p i x xs g.inv c

-- In every reachable state with a task in the queue in which not all four workers have exited, a
-- worker is in a handler, or one has a step in which it starts the task at the head of the queue,
-- and not by waking without a signal.
pub Reach-progress :
    (next : ℕ → ℕ) {p : TaskPool}
    → Reach next p
    → p.links.first ≢ 0
    → tally is_gone p.workers < default_threads_num
    → GetsOn p
Reach-progress next {p} r ne left = let (xs, g) = Reach-Good next r in progress_of p xs g ne left
