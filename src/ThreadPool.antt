-- ===== src/ThreadPool.antt =====
-- threadpool/thread_pool.c and threadpool/thread_pool.h: a pool of worker threads over one queue
-- of tasks.
--
-- Pointers to tasks are numbers, with NULL as 0. `Links` is the queue in memory: the `next` field
-- of every task, `first`, and `last`, which points to `first` or to the `next` field of a task. A
-- stretch of code between taking and leaving the mutex is one step, since the mutex admits one
-- thread at a time; `pthread_cond_wait` ends a step and begins another. That `pthread_mutex_lock`,
-- `pthread_mutex_unlock` and `pthread_cond_wait` succeed in the workers is assumed, and
-- `thread_task_post` takes the results of its calls as arguments. `posted`, `started` and `freed`
-- record which tasks were queued, taken and freed, in order. `pending` is the number of sleepers that
-- a signal has reached and that do not have the mutex yet.
pub mod Queue
pub mod Post
pub mod Workers
pub mod Awake
pub mod Turns
pub mod Comes
pub mod Reachable
pub mod Tally
pub mod Destroy
pub mod Stages
pub mod Destroyed
pub mod Shutdown
pub mod Termination
mod Tests
mod DestroyTests
pub use os_study_code.Base.{get_elem?, set, replicate}
use os_study_code.Base.{
  zero, suc, Option, none, some, ℕ, zero, suc, ◌+◌, Bool, true, false, not, Option, none, some,
  List, [], ◌∷◌, ◌++◌, ◌≡◌, ◌≢◌, ◌==◌, ◌-◌, ltb, if◌then◌else◌,
}
use os_study_code.Base.Int.{ℤ, pos, ◌+ℤ◌, ◌-ℤ◌, leb_ℤ}

-- Where a `thread_task_t **` points.
pub data Slot : Type 0 where
  head : Slot
  next_of : ℕ → Slot

pub record Links : Type 0 where
  pub next : ℕ → ℕ
  pub first : ℕ
  pub last : Slot

abbrev pub update : (ℕ → ℕ) → ℕ → ℕ → ℕ → ℕ
update f p v q = if p == q then v else f q

abbrev pub read : Links → Slot → ℕ
read l head = l.first
read l (next_of p) = l.next p

abbrev pub write : Links → Slot → ℕ → Links
write l head t = record l { first = t }
write l (next_of p) t = record l { next = update l.next p t }

-- `thread_pool_queue_init`
unfoldable pub queue_init : (ℕ → ℕ) → Links
queue_init next = record { next = next; first = 0; last = head }

-- `*tp->queue.last = task` and `tp->queue.last = &task->next`.
unfoldable pub enqueue : Links → ℕ → Links
enqueue l t = record (write l l.last t) { last = next_of t }

-- The task at the head, and the queue without it.
unfoldable pub dequeue : Links → ℕ × Links
dequeue l =
    let t = l.first in
    let first = l.next t in
    (t, record l { first = first; last = if first == 0 then head else l.last })

-- Where a worker stands: before it takes the mutex, in `pthread_cond_wait`, in the handler of a
-- task, or after `pthread_exit`.
pub data Worker : Type 0 where
  ready : Worker
  asleep : Worker
  running : ℕ → Worker
  gone : Worker

pub record TaskPool : Type 0 where
  pub links : Links
  pub waiting : ℤ
  pub max_queue : ℤ
  pub next_id : ℕ
  pub ids : ℕ → ℕ
  pub workers : List Worker
  pub posted : List ℕ
  pub started : List ℕ
  pub freed : List ℕ
  pub pending : ℕ

abbrev pub default_queue_num : ℕ
default_queue_num = 65535

abbrev pub default_threads_num : ℕ
default_threads_num = 4

-- `thread_pool_init` where all its calls succeed: memory from `calloc` is zero.
unfoldable pub thread_pool_init : (ℕ → ℕ) → TaskPool
unfolding queue_init
thread_pool_init next = record {
  links = queue_init next;
  waiting = pos 0;
  max_queue = pos default_queue_num;
  next_id = 0;
  ids = λ _. 0;
  workers = replicate default_threads_num ready;
  posted = [];
  started = [];
  freed = [];
  pending = 0;
}

-- `task->id = thread_pool_task_id++` and `task->next = NULL`.
unfoldable pub tag : TaskPool → ℕ → TaskPool
tag p t = record p {
  next_id = p.next_id + 1;
  ids = update p.ids t p.next_id;
  links = record p.links { next = update p.links.next t 0 };
}

-- The workers in `pthread_cond_wait`.
abbrev pub sleepers : List Worker → ℕ
sleepers [] = 0
sleepers (asleep ∷ ws) = suc (sleepers ws)
sleepers (ready ∷ ws) = sleepers ws
sleepers (running t ∷ ws) = sleepers ws
sleepers (gone ∷ ws) = sleepers ws

-- `pthread_cond_signal`: one more of the sleepers may wake, if there is one.
abbrev pub signalled : TaskPool → ℕ
signalled p = if ltb p.pending (sleepers p.workers) then p.pending + 1 else p.pending

-- The Boolean is `OK`. The arguments say whether `thread_mutex_lock` and `thread_cond_signal`
-- succeed.
unfoldable pub thread_task_post : (locks signals : Bool) → TaskPool → ℕ → Bool × TaskPool
unfolding tag
thread_task_post locks signals p t =
    if not locks
    then (false, p)
    else if leb_ℤ p.max_queue p.waiting
    then (false, p)
    else if not signals
    then (false, tag p t)
    else (
      true,
      record (tag p t) {
        links = enqueue (tag p t).links t;
        waiting = p.waiting +ℤ pos 1;
        posted = p.posted ++ (t ∷ []);
        pending = signalled p;
      },
    )

-- The test of the inner loop of `thread_pool_cycle`, and what follows it: worker `i` sleeps while
-- the queue is empty, and takes a task otherwise.
unfoldable pub serve : TaskPool → ℕ → TaskPool
serve p i = if p.links.first == 0 then record p { workers = set p.workers i asleep } else record p {
  links = (dequeue p.links).1;
  workers = set p.workers i (running (dequeue p.links).0);
  started = p.started ++ ((dequeue p.links).0 ∷ []);
}

-- The head of the loop: `tp->waiting--`, then the test.
unfoldable pub enter : TaskPool → ℕ → TaskPool
enter p i = serve (record p { waiting = p.waiting -ℤ pos 1 }) i

-- A sleeper that was signalled has the mutex again.
unfoldable pub wake : TaskPool → ℕ → TaskPool
wake p i = serve (record p { pending = p.pending - 1 }) i

-- The handler of task `t` has returned: `task->next = NULL` and `free(task)`.
unfoldable pub finish : TaskPool → ℕ → ℕ → TaskPool
finish p i t = record p {
  workers = set p.workers i ready;
  links = record p.links { next = update p.links.next t 0 };
  freed = p.freed ++ (t ∷ []);
}

-- The handler is `thread_pool_exit_handler`, which calls `pthread_exit`.
unfoldable pub exit_thread : TaskPool → ℕ → TaskPool
exit_thread p i = record p { workers = set p.workers i gone }
