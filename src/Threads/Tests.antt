-- ===== src/Threads/Tests.antt =====
-- The start of the pool at a concrete state.
use os_study_code.Base.{◌==◌, refl, none, [], if◌then◌else◌}
use os_study_code.Base.Int.{pos}
use os_study_code.Sys.{Sys}
use os_study_code.Sys.Held.{held}
use os_study_code.Threads.{open_thread_pool}
use os_study_code.Threads.Wrappers.{running}
use os_study_code.Threads.Opening.{Opened, open_thread_pool-Opened}

-- The pool is at 8, the name at 9, and the second `pthread_create` fails.
abbrev one_thread : Sys
one_thread = record {
  results =
      λ n. if n == 0 then pos 8 else if n == 1 then pos 9 else if n == 10 then pos 11 else pos 0;
  chunks = λ n. none;
  tick = 0;
  stream = [];
  calls = [];
}

open_thread_pool-Opened_example :
    Opened
      (pos 8)
      (pos 9)
      (held one_thread.calls)
      (running one_thread.calls)
      (open_thread_pool one_thread)
open_thread_pool-Opened_example = open_thread_pool-Opened one_thread refl
