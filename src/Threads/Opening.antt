-- ===== src/Threads/Opening.antt =====
-- What `thread_pool_init` leaves behind.
use os_study_code.Base.{
  ℕ, zero, suc, ◌+◌, ◌≤◌, ◌≡◌, refl, ap, ◌∙◌, ◌⊎◌, inl, inr, Bool, true, false, List, ◌∷◌, arith,
  if◌then◌else◌, Bool-cases,
}
use os_study_code.Base.Int.{ℤ, pos}
use os_study_code.Sys.{
  Sys, Outcome, done, exited, fault, pthread, create, attr_init, attr_setdetachstate, cond_init,
  mutex_destroy, alloc, invoke, log, ◌>>=◌,
}
use os_study_code.Sys.Held.{Resource, memory, held, is_null, give_back, same}
use os_study_code.Threads.{
  is_zero, thread_cond_create, thread_mutex_destroy, give_up, create_threads, detached,
  with_attributes, with_cond, with_mutex, set_up, open_thread_pool, sizeof_name, sizeof_thread_pool,
}
use os_study_code.Threads.Wrappers.{running, thread_mutex_create-Answers}

-- With the copy of the name, if `strdup` made one.
abbrev pub named : ℤ → List Resource → List Resource
named name qs = if is_null name then qs else memory name ∷ qs

-- The pool is set up and its four threads run; or the result is NULL, the pool is freed, the name is
-- not, and up to three threads run on the memory that was the pool's.
abbrev pub Opened : (tp name : ℤ) → List Resource → ℕ → Outcome ℤ × Sys → Type 0
Opened tp name qs n (done r, t) =
    ((r ≡ tp) × (held t.calls ≡ named name (memory tp ∷ qs)) × (running t.calls ≡ n + 4))
    ⊎ ((r ≡ pos 0) × (held t.calls ≡ named name qs) × (running t.calls ≤ n + 3))
Opened tp name qs n (exited code, t) = ⊥
Opened tp name qs n (fault, t) = ⊥

same_memory : (p q : ℤ) → same (memory p) (memory q) ≡ true → p ≡ q
same_memory p q e = ground arith

give_back-named :
    (tp name : ℤ) (qs : List Resource)
    → is_null tp ≡ false
    → (if is_null tp
        then named name (memory tp ∷ qs)
        else give_back (memory tp) (named name (memory tp ∷ qs)))
      ≡ named name qs
give_back-named tp name qs given = rw given (elim (Bool-cases (is_null name)) [
  | inl null ↦ rw null (ground arith)
  | inr some_name ↦ rw some_name (elim (Bool-cases (same (memory tp) (memory name))) [
    | inl equal ↦ rw equal (ap (λ p. memory p ∷ qs) (same_memory tp name equal))
    | inr other ↦ rw other (ground arith)
  ])
])

module _ (tp name : ℤ) (qs : List Resource) (n : ℕ) (given : is_null tp ≡ false) where
  -- The state while the pool is set up, with `j` threads.
  record Setting (j : ℕ) (s : Sys) : Type 0 where
    holds : held s.calls ≡ named name (memory tp ∷ qs)
    runs : running s.calls ≡ n + j

  give_up-Opened : (j : ℕ) (s : Sys) → j ≤ 3 → Setting j s → Opened tp name qs n (give_up tp s)
  unfolding invoke
  give_up-Opened j s le h =
      inr (refl, rw h.holds (give_back-named tp name qs given), rw h.runs (omega arith))

  create_threads-Opened :
      (rounds j : ℕ) (s : Sys)
      → j + rounds ≡ 4
      → Setting j s
      → Opened tp name qs n (create_threads rounds tp s)
  unfolding create_threads invoke
  create_threads-Opened zero j s e h = inl (refl, h.holds, rw h.runs (omega arith))
  create_threads-Opened (suc rounds) j s e h = elim (Bool-cases (is_zero (s.results s.tick))) [
    | inl starts ↦
        rw (starts, ◌>>=◌)
          (create_threads-Opened rounds (j + 1) (log (pthread create) (s.results s.tick) s)
            (omega arith) (record { holds = h.holds; runs = rw starts (omega (arith, h.runs)) }))
    | inr fails ↦
        rw (fails, ◌>>=◌)
          (give_up-Opened j (log (pthread create) (s.results s.tick) s) (omega arith)
            (record { holds = h.holds; runs = rw fails h.runs }))
  ]

  detached-Opened : (ok : Bool) (s : Sys) → Setting 0 s → Opened tp name qs n (detached tp ok s)
  detached-Opened false s h = give_up-Opened 0 s (omega arith) h
  detached-Opened true s h = create_threads-Opened 4 0 s refl h

  with_attributes-Opened :
      (ok : Bool) (s : Sys) → Setting 0 s → Opened tp name qs n (with_attributes tp ok s)
  unfolding invoke
  with_attributes-Opened false s h = give_up-Opened 0 s (omega arith) h
  with_attributes-Opened true s h =
      detached-Opened (is_zero (s.results s.tick))
        (log (pthread attr_setdetachstate) (s.results s.tick) s)
        (record { holds = h.holds; runs = h.runs })

  with_cond-Opened : (ok : Bool) (s : Sys) → Setting 0 s → Opened tp name qs n (with_cond tp ok s)
  unfolding invoke thread_mutex_destroy
  with_cond-Opened false s h =
      give_up-Opened 0 (log (pthread mutex_destroy) (s.results s.tick) s) (omega arith)
        (record { holds = h.holds; runs = h.runs })
  with_cond-Opened true s h =
      with_attributes-Opened (is_zero (s.results s.tick))
        (log (pthread attr_init) (s.results s.tick) s) (record { holds = h.holds; runs = h.runs })

  with_mutex-Opened : (ok : Bool) (s : Sys) → Setting 0 s → Opened tp name qs n (with_mutex tp ok s)
  unfolding invoke thread_cond_create
  with_mutex-Opened false s h = give_up-Opened 0 s (omega arith) h
  with_mutex-Opened true s h =
      with_cond-Opened (is_zero (s.results s.tick)) (log (pthread cond_init) (s.results s.tick) s)
        (record { holds = h.holds; runs = h.runs })

-- If calloc gives the pool, thread_pool_init ends without a fault: either it returns the pool,
-- holds it and the copy of the name, and has started four threads; or it returns NULL and the
-- pool is freed, while the copy of the name, if there is one, is still held and up to three
-- threads were started.
pub open_thread_pool-Opened :
    (s : Sys)
    → is_null (s.results s.tick) ≡ false
    → Opened
        (s.results s.tick)
        (s.results (s.tick + 1))
        (held s.calls)
        (running s.calls)
        (open_thread_pool s)
unfolding open_thread_pool set_up invoke
open_thread_pool-Opened s given =
    let tp = s.results s.tick in
    let name = s.results (s.tick + 1) in
    let first = log (alloc sizeof_thread_pool) tp s in
    let second = log (alloc sizeof_name) name first in
    let made = thread_mutex_create-Answers second in
    rw given (
      rw made.run (
        with_mutex-Opened tp name (held s.calls) (running s.calls) given _ made.end (record {
          holds = made.same_held ∙ rw given refl;
          runs = made.same_running ∙ omega arith;
        })))
