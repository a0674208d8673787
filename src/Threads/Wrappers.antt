-- ===== src/Threads/Wrappers.antt =====
-- The wrappers answer OK exactly if their calls succeed, and they hold nothing.
use os_study_code.Base.{
  ℕ, ◌+◌, ◌≡◌, refl, Bool, ◌&&◌, List, [], ◌∷◌, Bool-cases, inl, inr, if◌then◌else◌, suc,
}
use os_study_code.Base.Int.{ℤ}
use os_study_code.Sys.{
  Sys, done, Call, create, mutexattr_init, mutexattr_settype, mutex_init, mutexattr_destroy,
  pthread, M, invoke, log,
}
use os_study_code.Sys.Held.{held}
use os_study_code.Threads.{is_zero, thread_mutex_create}

-- The threads that were started.
abbrev pub running : List (Call × ℤ) → ℕ
running [] = 0
running ((Call.pthread create, r) ∷ cs) = if is_zero r then suc (running cs) else running cs
running (c ∷ cs) = running cs

-- `m` answers `b` and changes neither what is held nor what runs.
pub record Answers (m : M Bool) (b : Bool) (s : Sys) : Type 0 where
  pub end : Sys
  pub run : m s ≡ (done b, end)
  pub same_held : held end.calls ≡ held s.calls
  pub same_running : running end.calls ≡ running s.calls
  pub same_results : end.results ≡ s.results

-- thread_mutex_create answers OK exactly if pthread_mutexattr_init, pthread_mutexattr_settype and
-- pthread_mutex_init all return 0, whatever pthread_mutexattr_destroy returns; it neither changes
-- what the program holds nor starts a thread.
pub thread_mutex_create-Answers :
    (s : Sys)
    → Answers thread_mutex_create
        (is_zero (s.results s.tick)
          && is_zero (s.results (s.tick + 1))
          && is_zero (s.results (s.tick + 1 + 1)))
        s
unfolding thread_mutex_create invoke
thread_mutex_create-Answers s =
    let one = log (pthread mutexattr_init) (s.results s.tick) s in
    let two = log (pthread mutexattr_settype) (s.results (s.tick + 1)) one in
    let three = log (pthread mutex_init) (s.results (s.tick + 1 + 1)) two in
    let four = log (pthread mutexattr_destroy) (s.results (s.tick + 1 + 1 + 1)) three in
    elim (Bool-cases (is_zero (s.results s.tick))) [
      | inr fails ↦ record {
        end = one;
        run = rw fails refl;
        same_held = refl;
        same_running = refl;
        same_results = refl;
      }
      | inl first ↦ elim (Bool-cases (is_zero (s.results (s.tick + 1)))) [
        | inr fails ↦ record {
          end = two;
          run = rw first (rw fails refl);
          same_held = refl;
          same_running = refl;
          same_results = refl;
        }
        | inl second ↦ elim (Bool-cases (is_zero (s.results (s.tick + 1 + 1)))) [
          | inr fails ↦ record {
            end = three;
            run = rw first (rw second (rw fails refl));
            same_held = refl;
            same_running = refl;
            same_results = refl;
          }
          | inl third ↦ record {
            end = four;
            run = rw first (rw second (rw third refl));
            same_held = refl;
            same_running = refl;
            same_results = refl;
          }
        ]
      ]
    ]
