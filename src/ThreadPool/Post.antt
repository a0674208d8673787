-- ===== src/ThreadPool/Post.antt =====
-- The invariant of a pool, and `thread_task_post`.
use os_study_code.Base.{
  not, ℕ, ◌+◌, ◌≡◌, refl, ap, ◌∙◌, ◌≢◌, ◌⊎◌, inl, inr, Bool, true, false, List, [], ◌∷◌, ◌++◌,
  arith, Bool-cases, if◌then◌else◌, length, length-append,
}
use mathlib.Core.List.{append_assoc}
use os_study_code.Base.Int.{pos, pos_part, neg_part, ◌+ℤ◌, ◌≤ℤ◌, ◌<ℤ◌, leb_ℤ, +ℤ_parts}
use os_study_code.ThreadPool.{
  sleepers, signalled, enqueue, TaskPool, thread_pool_init, tag, thread_task_post,
}
use os_study_code.ThreadPool.Queue.{
  has, IsQueue, queue_init-IsQueue, enqueue-IsQueue, clear-IsQueue,
}

-- The tasks of the list are queued. `waiting` counts a sleeping worker as -1, so it is the length
-- of the queue less the number of sleepers, and it never passes `max_queue`. A task that was posted
-- is queued or was started, in the order of the posts.
pub record Inv (p : TaskPool) (xs : List ℕ) : Type 0 where
  pub queue : IsQueue p.links xs
  pub balance : pos_part p.waiting + sleepers p.workers ≡ neg_part p.waiting + length xs
  pub bounded : p.waiting ≤ℤ p.max_queue
  pub order : p.posted ≡ p.started ++ xs

pub thread_pool_init-Inv : (next : ℕ → ℕ) → Inv (thread_pool_init next) []
unfolding thread_pool_init
thread_pool_init-Inv next = record {
  queue = queue_init-IsQueue next;
  balance = refl;
  bounded = omega arith;
  order = refl;
}

-- What a post that is refused leaves: only the task's own fields and the next identifier may
-- differ.
pub record Refused (p : TaskPool) (xs : List ℕ) (q : TaskPool) : Type 0 where
  pub inv : Inv q xs
  pub waiting : q.waiting ≡ p.waiting
  pub workers : q.workers ≡ p.workers
  pub posted : q.posted ≡ p.posted
  pub started : q.started ≡ p.started
  pub freed : q.freed ≡ p.freed
  pub pending : q.pending ≡ p.pending

-- What a post that succeeds leaves: the task at the end of the queue with a new identifier.
pub record Accepted (p : TaskPool) (xs : List ℕ) (t : ℕ) (q : TaskPool) : Type 0 where
  pub inv : Inv q (xs ++ (t ∷ []))
  pub posted : q.posted ≡ p.posted ++ (t ∷ [])
  pub started : q.started ≡ p.started
  pub freed : q.freed ≡ p.freed
  pub pending : q.pending ≡ signalled p
  pub workers : q.workers ≡ p.workers
  pub counted : q.waiting ≡ p.waiting +ℤ pos 1
  pub named : q.ids t ≡ p.next_id
  pub next_name : q.next_id ≡ p.next_id + 1

module _ (p : TaskPool) (xs : List ℕ) (t : ℕ) (inv : Inv p xs) (out : has t xs ≡ false) where
  tag-Inv : Inv (tag p t) xs
  unfolding tag
  tag-Inv = record {
    queue = clear-IsQueue p.links t xs inv.queue out;
    balance = inv.balance;
    bounded = inv.bounded;
    order = inv.order;
  }

  abbrev grown : TaskPool
  grown = record (tag p t) {
    links = enqueue (tag p t).links t;
    waiting = p.waiting +ℤ pos 1;
    posted = p.posted ++ (t ∷ []);
    pending = signalled p;
  }

  grown-Accepted : t ≢ 0 → leb_ℤ p.max_queue p.waiting ≡ false → Accepted p xs t grown
  unfolding tag
  grown-Accepted ne room = record {
    inv = record {
      queue = enqueue-IsQueue (tag p t).links t xs tag-Inv.queue ne (ground arith) out;
      balance = omega (arith, inv.balance, +ℤ_parts p.waiting (pos 1), length-append xs (t ∷ []));
      bounded = ground (arith, +ℤ_parts p.waiting (pos 1));
      order = ap (λ (l : List ℕ). l ++ (t ∷ [])) inv.order ∙ append_assoc p.started xs (t ∷ []);
    };
    posted = refl;
    started = refl;
    freed = refl;
    pending = refl;
    workers = refl;
    counted = refl;
    named = ground arith;
    next_name = refl;
  }

-- The outcomes of `thread_task_post` for a task that is not queued: it succeeds exactly if both
-- calls do and `waiting` is below `max_queue`.
abbrev pub Posted : (locks signals : Bool) → TaskPool → List ℕ → ℕ → Bool × TaskPool → Type 0
Posted locks signals p xs t (done, q) =
    ((done ≡ false)
      × Refused p xs q
      × ((locks ≡ false) ⊎ (signals ≡ false) ⊎ (p.max_queue ≤ℤ p.waiting)))
    ⊎ ((done ≡ true)
        × Accepted p xs t q
        × (locks ≡ true)
        × (signals ≡ true)
        × (p.waiting <ℤ p.max_queue))

same-Refused : (p : TaskPool) (xs : List ℕ) → Inv p xs → Refused p xs p
same-Refused p xs inv = record {
  inv = inv;
  waiting = refl;
  workers = refl;
  posted = refl;
  started = refl;
  freed = refl;
  pending = refl;
}

tag-Refused :
    (p : TaskPool) (xs : List ℕ) (t : ℕ) → Inv p xs → has t xs ≡ false → Refused p xs (tag p t)
unfolding tag
tag-Refused p xs t inv out = record {
  inv = tag-Inv p xs t inv out;
  waiting = refl;
  workers = refl;
  posted = refl;
  started = refl;
  freed = refl;
  pending = refl;
}

-- For a task that is not NULL and not queued, thread_task_post keeps the invariant. It fails if
-- the mutex or the signal fails or waiting has reached max_queue, and then the queue, waiting,
-- the workers and the record of posts stay; otherwise the task is last in the queue, waiting is
-- one more, and the task has the next identifier.
pub thread_task_post-Posted :
    (locks signals : Bool) (p : TaskPool) (xs : List ℕ) (t : ℕ)
    → Inv p xs
    → t ≢ 0
    → has t xs ≡ false
    → Posted locks signals p xs t (thread_task_post locks signals p t)
unfolding thread_task_post
thread_task_post-Posted false signals p xs t inv ne out =
    inl (refl, same-Refused p xs inv, inl refl)
thread_task_post-Posted true signals p xs t inv ne out =
    elim (Bool-cases (leb_ℤ p.max_queue p.waiting)) [
      | inl full ↦ rw full (inl (refl, same-Refused p xs inv, inr (inr (ground arith))))
      | inr room ↦ rw room (posted_of signals room)
    ]
  where
    posted_of :
        (signals : Bool)
        → leb_ℤ p.max_queue p.waiting ≡ false
        → Posted true signals p xs t
            (if not signals then (false, tag p t) else (true, grown p xs t inv out))
    posted_of false room = inl (refl, tag-Refused p xs t inv out, inr (inl refl))
    posted_of true room =
        inr (refl, grown-Accepted p xs t inv out ne room, refl, refl, ground arith)
