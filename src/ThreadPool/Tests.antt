-- ===== src/ThreadPool/Tests.antt =====
-- The thread pool at concrete states.
use os_study_code.Base.{ℕ, refl, true, List, [], ◌∷◌, arith}
use os_study_code.ThreadPool.{queue_init, enqueue, TaskPool, thread_pool_init, thread_task_post}
use os_study_code.ThreadPool.Queue.{IsQueue, queue_init-IsQueue, enqueue-IsQueue}
use os_study_code.ThreadPool.Post.{thread_pool_init-Inv, Posted, thread_task_post-Posted}
use os_study_code.ThreadPool.Workers.{posts, Reach, start, later}
use os_study_code.ThreadPool.Reachable.{Good, GetsOn, Reach-Good, Reach-progress}

abbrev fields : ℕ → ℕ
fields p = 0

abbrev empty_pool : TaskPool
empty_pool = thread_pool_init fields

-- The pool with task 7 in its queue.
abbrev one_task : TaskPool
one_task = (thread_task_post true true empty_pool 7).1

one_task-Reach : Reach fields one_task
unfolding thread_pool_init
one_task-Reach = later start (posts true true 7 (omega arith) refl refl)

one_queued : IsQueue (enqueue (queue_init fields) 7) (7 ∷ [])
unfolding queue_init
one_queued =
    enqueue-IsQueue (queue_init fields) 7 [] (queue_init-IsQueue fields) (omega arith) refl refl

enqueue-IsQueue_example : IsQueue (enqueue (queue_init fields) 7) (7 ∷ [])
unfolding queue_init
enqueue-IsQueue_example =
    enqueue-IsQueue (queue_init fields) 7 [] (queue_init-IsQueue fields) (omega arith) refl refl

thread_task_post-Posted_example :
    Posted true true empty_pool [] 7 (thread_task_post true true empty_pool 7)
thread_task_post-Posted_example =
    thread_task_post-Posted true true empty_pool [] 7 (thread_pool_init-Inv fields) (omega arith)
      refl

Reach-Good_example : (xs : List ℕ) × Good one_task xs
Reach-Good_example = Reach-Good fields one_task-Reach

Reach-progress_example : GetsOn one_task
unfolding thread_task_post thread_pool_init enqueue
Reach-progress_example = Reach-progress fields one_task-Reach (omega arith) (omega arith)
