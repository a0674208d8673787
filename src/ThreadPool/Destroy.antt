-- ===== src/ThreadPool/Destroy.antt =====
-- `thread_pool_destroy`, with the workers that take its tasks.
--
-- The main thread posts one task, at the address `exit_task` on its stack, once for each worker,
-- and spins on `lock` until a worker has run it. Nobody else posts meanwhile, and the handlers of the
-- other tasks return.
use os_study_code.Base.{ℕ, ◌+◌, ◌≤◌, ◌<◌, ◌≡◌, ◌≢◌, Bool, true, false, some, if◌then◌else◌}
use os_study_code.ThreadPool.{
  sleepers, wake, ready, asleep, running, TaskPool, get_elem?, thread_task_post, serve, enter,
  finish, exit_thread, default_threads_num,
}

-- In round `n` of the loop: before the post, or at `while (lock)`; after the `return` on an error;
-- after `free(tp)`.
pub data Stage : Type 0 where
  posting : (n : ℕ) → Stage
  spinning : (n : ℕ) → Stage
  abandoned : Stage
  destroyed : Stage

pub record Closing : Type 0 where
  pub pool : TaskPool
  pub stage : Stage
  pub lock : Bool

unfoldable pub destroy : TaskPool → Closing
destroy p = record { pool = p; stage = posting 0; lock = false }

-- `lock = 1` and the post.
unfoldable pub post_exit : (locks signals : Bool) → (exit_task n : ℕ) → Closing → Closing
post_exit locks signals exit_task n c =
    let (ok, p) = thread_task_post locks signals c.pool exit_task in
    record { pool = p; stage = if ok then spinning n else abandoned; lock = true }

-- `thread_pool_exit_handler`
unfoldable pub exit_handler : ℕ → Closing → Closing
exit_handler i c = record c { pool = exit_thread c.pool i; lock = false }

pub data Step (exit_task : ℕ) (c : Closing) : Closing → Type 0 where
  posts_exit :
      (locks signals : Bool) (n : ℕ)
      → c.stage ≡ posting n
      → n < default_threads_num
      → Step exit_task c (post_exit locks signals exit_task n c)
  sees :
      (n : ℕ)
      → c.stage ≡ spinning n
      → c.lock ≡ false
      → Step exit_task c (record c { stage = posting (n + 1) })
  frees :
      (n : ℕ)
      → c.stage ≡ posting n
      → default_threads_num ≤ n
      → Step exit_task c (record c { stage = destroyed })
  enters :
      (i : ℕ)
      → get_elem? c.pool.workers i ≡ some ready
      → Step exit_task c (record c { pool = enter c.pool i })
  wakes :
      (i : ℕ)
      → get_elem? c.pool.workers i ≡ some asleep
      → 0 < c.pool.pending
      → Step exit_task c (record c { pool = wake c.pool i })
  finishes :
      (i t : ℕ)
      → get_elem? c.pool.workers i ≡ some (running t)
      → t ≢ exit_task
      → Step exit_task c (record c { pool = finish c.pool i t })
  exits :
      (i : ℕ)
      → get_elem? c.pool.workers i ≡ some (running exit_task)
      → Step exit_task c (exit_handler i c)

pub data Reach (exit_task : ℕ) (p : TaskPool) : Closing → Type 0 where
  start : Reach exit_task p (destroy p)
  later : {c d : Closing} → Reach exit_task p c → Step exit_task c d → Reach exit_task p d
  wakes_early :
      {c : Closing} (i : ℕ)
      → Reach exit_task p c
      → get_elem? c.pool.workers i ≡ some asleep
      → c.pool.pending < sleepers c.pool.workers
      → Reach exit_task p (record c { pool = serve c.pool i })

-- Any number of steps, none of which is a wake-up without a signal.
pub data Steps (exit_task : ℕ) : Closing → Closing → Type 0 where
  none_yet : {c : Closing} → Steps exit_task c c
  onward : {c d f : Closing} → Step exit_task c d → Steps exit_task d f → Steps exit_task c f
