-- ===== src/ThreadPool/Destroyed.antt =====
-- What holds while the pool is destroyed.
use mathlib.Core.Path.{subst}
use os_study_code.Base.{
  ℕ, ◌+◌, ◌<◌, ◌≡◌, ◌≢◌, refl, sym, ap, ◌∙◌, inl, inr, Bool, true, some, List, [], ◌∷◌, ◌++◌, arith,
  if◌then◌else◌, length, length-append, ◌-◌, ◌*◌, count, count-append, length-set,
}
use os_study_code.ThreadPool.{
  Worker, ready, asleep, running, gone, TaskPool, get_elem?, set, serve, enter, finish, exit_thread,
  wake, sleepers, thread_task_post,
}
use os_study_code.ThreadPool.Post.{Inv, Posted, thread_task_post-Posted}
use os_study_code.ThreadPool.Workers.{
  signal-Served, finish-Inv, Served, enter-Served, wake-Served, set-Inv, count-has,
}
use os_study_code.ThreadPool.Tally.{tally, is_gone, runs, gone-le, served, rest, serve-workers}
use os_study_code.ThreadPool.Awake.{Awake, runs-has, finish-Awake, exit-Awake}
use os_study_code.ThreadPool.Turns.{
  Refused-Awake, Accepted-Awake, enter-workers, wake-workers, enter-Awake, wake-Awake, early-Awake,
}
use os_study_code.ThreadPool.Destroy.{
  Stage, posting, spinning, abandoned, destroyed, Closing, post_exit, exit_handler, Step,
  posts_exit, sees, frees, enters, wakes, finishes, exits,
}
use os_study_code.ThreadPool.Stages.{
  AtStage, EndsWith-append, turn-AtStage, finish-AtStage, exit-AtStage,
}

pub record Sound (e : ℕ) (c : Closing) (xs : List ℕ) : Type 0 where
  pub inv : Inv c.pool xs
  pub size : length c.pool.workers ≡ 4
  pub awake : Awake c.pool xs
  pub at : AtStage e c.stage c.lock c.pool.workers xs

Served-rest :
    (p : TaskPool) (i : ℕ) (xs : List ℕ) (q : TaskPool) → Served p i xs q → Inv q (rest xs)
Served-rest p i [] q s = s.0
Served-rest p i (x ∷ xs) q s = s.0

pub turn-Sound :
    (e : ℕ) (c : Closing) (xs : List ℕ) (i : ℕ) (a : Worker) (q : TaskPool)
    → Sound e c xs
    → get_elem? c.pool.workers i ≡ some a
    → runs e a ≡ 0
    → is_gone a ≡ 0
    → Served c.pool i xs q
    → q.workers ≡ set c.pool.workers i (served xs)
    → Awake q (rest xs)
    → Sound e (record c { pool = q }) (rest xs)
turn-Sound e c xs i a q s at idle here served_so now w = record {
  awake = w;
  inv = Served-rest c.pool i xs q served_so;
  size = ap length now ∙ length-set c.pool.workers i (served xs) ∙ s.size;
  at =
      subst (λ ws. AtStage e c.stage c.lock ws (rest xs)) (sym now)
        (turn-AtStage e c.stage c.lock c.pool.workers xs i a at idle here s.size s.at);
}

-- How far a stage is from the end.
abbrev pub left : Stage → ℕ
left (posting n) = 5 * (4 - n) + 1
left (spinning n) = 5 * (4 - n) - 2
left abandoned = 0
left destroyed = 0

-- The post of a round.
pub post-Sound :
    (e : ℕ) (locks signals : Bool) (c : Closing) (xs : List ℕ) (n : ℕ) (r : Bool × TaskPool)
    → Sound e c xs
    → n < 4
    → AtStage e (posting n) c.lock c.pool.workers xs
    → Posted locks signals c.pool xs e r
    → (ys : List ℕ) × Sound e
        (record { pool = r.1; stage = if r.0 then spinning n else abandoned; lock = true })
        ys
      × (left (if r.0 then spinning n else abandoned) + 2 * length ys
          < left (posting n) + 2 * length xs)
      × (r.1.workers ≡ c.pool.workers)
post-Sound e locks signals c xs n (ok, q) s lt (none_left, r, g, empty) (inl refused) = (
  xs,
  rw refused.0 (record {
    inv = refused.1.inv;
    awake = Refused-Awake c.pool xs q refused.1 s.awake;
    size = ap length refused.1.workers ∙ s.size;
    at = tt;
  }),
  rw refused.0 (omega arith),
  refused.1.workers,
)
post-Sound e locks signals c xs n (ok, q) s lt (none_left, r, g, empty) (inr accepted) = (
  xs ++ (e ∷ []),
  rw accepted.0 (record {
    inv = accepted.1.inv;
    awake = Accepted-Awake c.pool xs e q accepted.1 none_left r s.awake;
    size = ap length accepted.1.workers ∙ s.size;
    at = (
      let one : count e (e ∷ []) ≡ 1 = ground arith in
          omega (
            arith,
            count-append e xs (e ∷ []),
            none_left,
            one,
            r,
            ap (tally (runs e)) accepted.1.workers,
          ),
      ap (tally is_gone) accepted.1.workers ∙ g,
      lt,
      EndsWith-append e xs,
    );
  }),
  rw accepted.0 (omega (arith, length-append xs (e ∷ []))),
  accepted.1.workers,
)

pub finish-Sound :
    (e : ℕ) (c : Closing) (xs : List ℕ) (i t : ℕ)
    → Sound e c xs
    → get_elem? c.pool.workers i ≡ some (running t)
    → t ≢ e
    → Sound e (record c { pool = finish c.pool i t }) xs
unfolding finish
finish-Sound e c xs i t s at other = record {
  inv = finish-Inv c.pool i t xs s.inv at (runs-has c.pool xs i t s.awake at);
  awake = finish-Awake c.pool xs i t at s.awake;
  size = length-set c.pool.workers i ready ∙ s.size;
  at = finish-AtStage e c.stage c.lock c.pool.workers xs i t at other s.at;
}

pub exit-Sound :
    (e : ℕ) (c : Closing) (xs : List ℕ) (i : ℕ)
    → Sound e c xs
    → get_elem? c.pool.workers i ≡ some (running e)
    → Sound e (exit_handler i c) xs
unfolding exit_handler exit_thread
exit-Sound e c xs i s at = record {
  inv = set-Inv c.pool i e gone xs s.inv at refl;
  awake = exit-Awake c.pool xs i e at s.awake;
  size = length-set c.pool.workers i gone ∙ s.size;
  at = exit-AtStage e c.stage c.lock c.pool.workers xs i at s.size s.at;
}

pub Step-Sound :
    (e : ℕ) {c d : Closing} (xs : List ℕ)
    → e ≢ 0
    → Sound e c xs
    → Step e c d
    → (ys : List ℕ) × Sound e d ys
unfolding post_exit
Step-Sound e {c} xs real s (posts_exit locks signals n is lt) =
    let at = subst (λ st. AtStage e st c.lock c.pool.workers xs) is s.at in
    let (ys, t, nearer, same) =
      post-Sound e locks signals c xs n (thread_task_post locks signals c.pool e) s lt at
        (thread_task_post-Posted locks signals c.pool xs e s.inv real (count-has e xs at.0)) in
    (ys, t)
Step-Sound e {c} xs real s (sees n is unlocked) =
    let at =
      subst (λ b. AtStage e (spinning n) b c.pool.workers xs) unlocked
        (subst (λ st. AtStage e st c.lock c.pool.workers xs) is s.at) in
    (xs, record { inv = s.inv; awake = s.awake; size = s.size; at = (at.0, at.1, at.2, inr at.3) })
Step-Sound e {c} xs real s (frees n is enough) =
    let at = subst (λ st. AtStage e st c.lock c.pool.workers xs) is s.at in
    (
      xs,
      record {
        inv = s.inv;
        awake = s.awake;
        size = s.size;
        at = (
          omega (arith, at.2, enough, gone-le c.pool.workers, s.size),
          elim at.3 [ inl first ↦ absurd (omega (arith, first, enough)) | inr empty ↦ empty ],
        );
      },
    )
Step-Sound e {c} xs real s (enters i is) = (
  rest xs,
  turn-Sound e c xs i ready (enter c.pool i) s is refl refl (enter-Served c.pool i xs s.inv is)
      (enter-workers c.pool i xs s.inv) (enter-Awake c.pool i xs s.inv is s.awake),
)
Step-Sound e {c} xs real s (wakes i is called) = (
  rest xs,
  turn-Sound e c xs i asleep (wake c.pool i) s is refl refl (signal-Served c.pool i xs s.inv is)
      (wake-workers c.pool i xs s.inv) (wake-Awake c.pool i xs s.inv is called s.awake),
)
Step-Sound e {c} xs real s (finishes i t is other) = (xs, finish-Sound e c xs i t s is other)
Step-Sound e {c} xs real s (exits i is) = (xs, exit-Sound e c xs i s is)

-- A worker wakes up without a signal.
pub early-Sound :
    (e : ℕ) (c : Closing) (xs : List ℕ) (i : ℕ)
    → Sound e c xs
    → get_elem? c.pool.workers i ≡ some asleep
    → c.pool.pending < sleepers c.pool.workers
    → Sound e (record c { pool = serve c.pool i }) (rest xs)
early-Sound e c xs i s at early =
    turn-Sound e c xs i asleep (serve c.pool i) s at refl refl (wake-Served c.pool i xs s.inv at)
      (serve-workers c.pool i xs s.inv.queue) (early-Awake c.pool i xs s.inv at early s.awake)
