-- ===== src/Threads.antt =====
-- threadpool/thread_mutex.c, thread_cond.c, and what thread_pool.c does with them at its start.
--
-- The wrappers answer `OK`, which is `true`, or `ERROR`. `thread_pool_init` returns the address of the
-- pool, or 0 for NULL. The pool that it sets up is that of ThreadPool.
pub mod Wrappers
pub mod Opening
mod Tests
use os_study_code.Base.{ℕ, zero, suc, ◌+◌, Bool, true, false, not, ◌==◌, ◌&&◌, if◌then◌else◌}
use os_study_code.Base.Int.{ℤ, pos, negsuc, pos_part, neg_part}
use os_study_code.Sys.{
  Call, alloc, free, pthread, Pthread, mutexattr_init, mutexattr_settype, mutexattr_destroy,
  mutex_init, mutex_destroy, mutex_lock, mutex_unlock, cond_init, cond_destroy, cond_signal,
  cond_wait, attr_init, attr_setdetachstate, attr_destroy, create, M, ◌>>=◌, ◌>>◌, return, invoke,
}
use os_study_code.Sys.Held.{is_null}

-- `err == 0`
abbrev pub is_zero : ℤ → Bool
is_zero r = pos_part r == 0 && neg_part r == 0

-- One call, with its result as OK or ERROR.
abbrev pub checked : Pthread → M Bool
checked op = do r ← invoke (pthread op); return (is_zero r)

unfoldable pub thread_mutex_destroy : M Bool
thread_mutex_destroy = checked mutex_destroy

unfoldable pub thread_mutex_lock : M Bool
thread_mutex_lock = checked mutex_lock

unfoldable pub thread_mutex_unlock : M Bool
thread_mutex_unlock = checked mutex_unlock

unfoldable pub thread_cond_create : M Bool
thread_cond_create = checked cond_init

unfoldable pub thread_cond_destroy : M Bool
thread_cond_destroy = checked cond_destroy

unfoldable pub thread_cond_signal : M Bool
thread_cond_signal = checked cond_signal

unfoldable pub thread_cond_wait : M Bool
thread_cond_wait = checked cond_wait

-- The last two calls: a failure of `pthread_mutexattr_destroy` is only reported.
abbrev pub mutex_ready : Bool → M Bool
mutex_ready false = return false
mutex_ready true = do invoke (pthread mutexattr_destroy); return true

abbrev pub mutex_typed : Bool → M Bool
mutex_typed false = return false
mutex_typed true = do ok ← checked mutex_init; mutex_ready ok

abbrev pub mutex_attributed : Bool → M Bool
mutex_attributed false = return false
mutex_attributed true = do ok ← checked mutexattr_settype; mutex_typed ok

unfoldable pub thread_mutex_create : M Bool
thread_mutex_create = do ok ← checked mutexattr_init; mutex_attributed ok

-- sizeof(thread_pool_t), sizeof(thread_task_t), and the size of "default" with its NUL.
abbrev pub sizeof_thread_pool : ℕ
sizeof_thread_pool = 136

abbrev pub sizeof_thread_task : ℕ
sizeof_thread_task = 32

abbrev pub sizeof_name : ℕ
sizeof_name = 8

unfoldable pub thread_task_alloc : ℕ → M ℤ
thread_task_alloc size = invoke (alloc (sizeof_thread_task + size))

abbrev pub give_up : ℤ → M ℤ
give_up tp = do invoke (free tp); return (pos 0)

-- The loop over the threads, and what follows it.
unfoldable pub create_threads : (rounds : ℕ) → ℤ → M ℤ
create_threads zero tp = do invoke (pthread attr_destroy); return tp
create_threads (suc rounds) tp = do
  ok ← checked create
  elim ok [ true ↦ create_threads rounds tp | false ↦ give_up tp ]

abbrev pub detached : ℤ → Bool → M ℤ
detached tp false = give_up tp
detached tp true = create_threads 4 tp

abbrev pub with_attributes : ℤ → Bool → M ℤ
with_attributes tp false = give_up tp
with_attributes tp true = do ok ← checked attr_setdetachstate; detached tp ok

abbrev pub with_cond : ℤ → Bool → M ℤ
with_cond tp false = do thread_mutex_destroy; give_up tp
with_cond tp true = do ok ← checked attr_init; with_attributes tp ok

abbrev pub with_mutex : ℤ → Bool → M ℤ
with_mutex tp false = give_up tp
with_mutex tp true = do ok ← thread_cond_create; with_cond tp ok

-- `thread_pool_init_default` copies the name; a failure of `strdup` is not looked at.
unfoldable pub set_up : ℤ → M ℤ
unfolding thread_mutex_create thread_cond_create thread_mutex_destroy create_threads
set_up tp = do invoke (alloc sizeof_name); ok ← thread_mutex_create; with_mutex tp ok

unfoldable pub open_thread_pool : M ℤ
unfolding set_up
open_thread_pool = do
  tp ← invoke (alloc sizeof_thread_pool)
  if is_null tp then return (pos 0) else set_up tp
