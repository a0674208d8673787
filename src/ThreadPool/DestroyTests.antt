-- ===== src/ThreadPool/DestroyTests.antt =====
-- The destruction of a pool at concrete states.
use os_study_code.Base.{ℕ, zero, suc, ◌+◌, refl, true, arith}
use os_study_code.ThreadPool.{TaskPool, thread_pool_init, enter}
use os_study_code.ThreadPool.Workers
use os_study_code.ThreadPool.Destroy.{posting, Closing, destroy, post_exit, exit_handler, start}
use os_study_code.ThreadPool.Shutdown.{Closes}
use os_study_code.ThreadPool.Termination.{Ends, Reach-Ends}

abbrev fields : ℕ → ℕ
fields p = 0

abbrev idle_pool : TaskPool
idle_pool = thread_pool_init fields

-- The exit task stands at 9.
idle_pool-Closes : Closes fields 9 idle_pool
unfolding thread_pool_init
idle_pool-Closes = record {
  reach = Workers.start;
  real = omega arith;
  unposted = refl;
  unused = refl;
  all_there = refl;
}

Reach-Ends_example : Ends 9 (destroy idle_pool)
Reach-Ends_example = Reach-Ends fields 9 idle_pool (destroy idle_pool) idle_pool-Closes start

-- Worker `n` takes the exit task of round `n`.
abbrev posted : ℕ → Closing → Closing
posted n c = post_exit true true 9 n c

abbrev taken : ℕ → Closing → Closing
taken n c = record (posted n c) { pool = enter (posted n c).pool n }

abbrev round : ℕ → Closing → Closing
round n c = record (exit_handler n (taken n c)) { stage = posting (n + 1) }

abbrev rounds : ℕ → Closing
rounds zero = destroy idle_pool
rounds (suc n) = round n (rounds n)
