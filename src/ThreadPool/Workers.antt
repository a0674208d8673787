-- ===== src/ThreadPool/Workers.antt =====
-- The loop of the workers, and the pool under any interleaving of workers and posts.
use mathlib.Core.List.{append_assoc}
use os_study_code.Base.{
  get_elem?-set_self, ℕ, zero, suc, ◌+◌, ◌-◌, ◌<◌, ◌≤◌, ◌≡◌, refl, sym, ap, ◌∙◌, ◌≢◌, Bool, true,
  false, some, List, [], ◌∷◌, ◌++◌, arith, ◌==◌, length, count,
}
use os_study_code.Base.Int.{pos, pos_part, neg_part, ◌-ℤ◌, ◌≤ℤ◌, -ℤ_parts}
use os_study_code.ThreadPool.{
  sleepers, wake, Worker, ready, asleep, running, gone, TaskPool, get_elem?, set, thread_pool_init,
  thread_task_post, serve, enter, finish, exit_thread, default_threads_num, default_queue_num,
}
use os_study_code.ThreadPool.Queue.{has, IsQueue, dequeue-IsQueue, clear-IsQueue}
use os_study_code.ThreadPool.Post.{Inv}
use os_study_code.ThreadPool.Tally.{tally, runs}

abbrev pub sleeps : Worker → ℕ
sleeps asleep = 1
sleeps ready = 0
sleeps (running t) = 0
sleeps gone = 0

pub sleepers-cons : (w : Worker) (ws : List Worker) → sleepers (w ∷ ws) ≡ sleeps w + sleepers ws
sleepers-cons ready ws = omega arith
sleepers-cons asleep ws = omega arith
sleepers-cons (running t) ws = omega arith
sleepers-cons gone ws = omega arith

pub sleepers-set :
    (ws : List Worker) (i : ℕ) (a b : Worker)
    → get_elem? ws i ≡ some a
    → sleepers (set ws i b) + sleeps a ≡ sleepers ws + sleeps b
sleepers-set [] i a b e = cc
sleepers-set (w ∷ ws) zero a b e =
    let same : w ≡ a = cc in omega (arith, sleepers-cons w ws, sleepers-cons b ws, ap sleeps same)
sleepers-set (w ∷ ws) (suc i) a b e =
    omega (arith, sleepers-cons w ws, sleepers-cons w (set ws i b), sleepers-set ws i a b e)

pub sleepers-le : (ws : List Worker) → sleepers ws ≤ length ws
sleepers-le [] = omega arith
sleepers-le (ready ∷ ws) = omega (arith, sleepers-le ws)
sleepers-le (asleep ∷ ws) = omega (arith, sleepers-le ws)
sleepers-le (running t ∷ ws) = omega (arith, sleepers-le ws)
sleepers-le (gone ∷ ws) = omega (arith, sleepers-le ws)

-- What worker `i` does with the mutex: it sleeps if the queue is empty, and starts the first task
-- otherwise.
abbrev pub Served : TaskPool → ℕ → List ℕ → TaskPool → Type 0
Served p i [] q = Inv q [] × (get_elem? q.workers i ≡ some asleep) × (q.started ≡ p.started)
Served p i (x ∷ xs) q =
    Inv q xs × (get_elem? q.workers i ≡ some (running x)) × (q.started ≡ p.started ++ (x ∷ []))

-- The state in which the test of the loop is made: worker `i` already counts as a sleeper.
record Serving (p : TaskPool) (i : ℕ) (xs : List ℕ) : Type 0 where
  queue : IsQueue p.links xs
  balance : pos_part p.waiting + sleepers (set p.workers i asleep) ≡ neg_part p.waiting + length xs
  bounded : p.waiting ≤ℤ p.max_queue
  order : p.posted ≡ p.started ++ xs

serve-Served :
    (p : TaskPool) (i : ℕ) (a : Worker) (xs : List ℕ)
    → get_elem? p.workers i ≡ some a
    → Serving p i xs
    → Served p i xs (serve p i)
unfolding serve
serve-Served p i a [] e s =
    let null : (p.links.first == 0) ≡ true = ground (arith, s.queue.chain) in
    rw null (
      record { queue = s.queue; balance = s.balance; bounded = s.bounded; order = s.order },
      get_elem?-set_self p.workers i asleep a e,
      refl,
    )
serve-Served p i a (x ∷ xs) e s =
    let full : (p.links.first == 0) ≡ false = ground (arith, s.queue.chain.0, s.queue.chain.1) in
    let (first, rest) = dequeue-IsQueue p.links x xs s.queue in
    rw (full, first)
      (
        record {
          queue = rest;
          balance = omega (
            arith,
            s.balance,
            sleepers-set p.workers i a asleep e,
            sleepers-set p.workers i a (running x) e,
          );
          bounded = s.bounded;
          order = s.order ∙ sym (append_assoc p.started (x ∷ []) xs);
        },
        get_elem?-set_self p.workers i (running x) a e,
        refl,
      )

-- A worker that enters the loop keeps the invariant: it falls asleep if the queue is empty, and
-- otherwise starts the first task and leaves the rest queued.
pub enter-Served :
    (p : TaskPool) (i : ℕ) (xs : List ℕ)
    → Inv p xs
    → get_elem? p.workers i ≡ some ready
    → Served p i xs (enter p i)
unfolding enter
enter-Served p i xs inv e =
    serve-Served (record p { waiting = p.waiting -ℤ pos 1 }) i ready xs e
      (record {
        queue = inv.queue;
        balance = omega (
          arith,
          inv.balance,
          -ℤ_parts p.waiting (pos 1),
          sleepers-set p.workers i ready asleep e,
        );
        bounded = omega (arith, inv.bounded, -ℤ_parts p.waiting (pos 1));
        order = inv.order;
      })

-- Worker `i` wakes up, with or without a signal, and tests again.
pub wake-Served :
    (p : TaskPool) (i : ℕ) (xs : List ℕ)
    → Inv p xs
    → get_elem? p.workers i ≡ some asleep
    → Served p i xs (serve p i)
wake-Served p i xs inv e = serve-Served p i asleep xs e (record {
  queue = inv.queue;
  balance = omega (arith, inv.balance, sleepers-set p.workers i asleep asleep e);
  bounded = inv.bounded;
  order = inv.order;
})

-- The same after a signal.
pub signal-Served :
    (p : TaskPool) (i : ℕ) (xs : List ℕ)
    → Inv p xs
    → get_elem? p.workers i ≡ some asleep
    → Served p i xs (wake p i)
unfolding wake
signal-Served p i xs inv e =
    wake-Served (record p { pending = p.pending - 1 }) i xs
      (record {
        queue = inv.queue;
        balance = inv.balance;
        bounded = inv.bounded;
        order = inv.order;
      })
      e

-- The handler of a task that is not queued ends.
pub finish-Inv :
    (p : TaskPool) (i t : ℕ) (xs : List ℕ)
    → Inv p xs
    → get_elem? p.workers i ≡ some (running t)
    → has t xs ≡ false
    → Inv (finish p i t) xs
unfolding finish
finish-Inv p i t xs inv e out = record {
  queue = clear-IsQueue p.links t xs inv.queue out;
  balance = omega (arith, inv.balance, sleepers-set p.workers i (running t) ready e);
  bounded = inv.bounded;
  order = inv.order;
}

-- A worker is gone.
pub set-Inv :
    (p : TaskPool) (i t : ℕ) (b : Worker) (xs : List ℕ)
    → Inv p xs
    → get_elem? p.workers i ≡ some (running t)
    → sleeps b ≡ 0
    → Inv (record p { workers = set p.workers i b }) xs
set-Inv p i t b xs inv e awake = record {
  queue = inv.queue;
  balance = omega (arith, inv.balance, sleepers-set p.workers i (running t) b e);
  bounded = inv.bounded;
  order = inv.order;
}

-- One step of one thread. A task comes from `thread_task_alloc`, so that its address is not one of a
-- task that is queued or that a worker runs: a worker frees it after its handler.
pub data Step (p : TaskPool) : TaskPool → Type 0 where
  posts :
      (locks signals : Bool) (t : ℕ)
      → t ≢ 0
      → count t p.posted ≡ count t p.started
      → tally (runs t) p.workers ≡ 0
      → Step p (thread_task_post locks signals p t).1
  enters : (i : ℕ) → get_elem? p.workers i ≡ some ready → Step p (enter p i)
  wakes : (i : ℕ) → get_elem? p.workers i ≡ some asleep → 0 < p.pending → Step p (wake p i)
  finishes : (i t : ℕ) → get_elem? p.workers i ≡ some (running t) → Step p (finish p i t)
  exits : (i t : ℕ) → get_elem? p.workers i ≡ some (running t) → Step p (exit_thread p i)

-- `pthread_cond_wait` may also return without a signal, but nothing may rely on it.
pub data Reach (next : ℕ → ℕ) : TaskPool → Type 0 where
  start : Reach next (thread_pool_init next)
  later : {p q : TaskPool} → Reach next p → Step p q → Reach next q
  wakes_early :
      {p : TaskPool} (i : ℕ)
      → Reach next p
      → get_elem? p.workers i ≡ some asleep
      → p.pending < sleepers p.workers
      → Reach next (serve p i)

-- What does not change.
pub record Sizes (p : TaskPool) : Type 0 where
  pub workers : length p.workers ≡ default_threads_num
  pub max : p.max_queue ≡ pos default_queue_num

pub count-has : (t : ℕ) (xs : List ℕ) → count t xs ≡ 0 → has t xs ≡ false
count-has t [] e = refl
count-has t (x ∷ xs) e = ground (arith, count-has t xs)
