-- ===== src/ThreadPool/Shutdown.antt =====
-- How the destruction of the pool ends.
use os_study_code.Base.{ℕ, ◌≡◌, ◌≢◌, refl, ap, inl, some, List, arith, count, count-append}
use os_study_code.ThreadPool.{Worker, gone, TaskPool, get_elem?}
use os_study_code.ThreadPool.Workers.{enter-Served, wake-Served, set-Inv, count-has}
use os_study_code.ThreadPool.Workers
use os_study_code.ThreadPool.Reachable.{Reach-Good}
use os_study_code.ThreadPool.Tally.{tally, is_gone, runs, rest}
use os_study_code.ThreadPool.Destroy.{Closing, destroy, Reach, start, later, wakes_early}
use os_study_code.ThreadPool.Destroyed.{Sound, Step-Sound, early-Sound}

-- A reachable pool in which nobody has exited, and an address that is not a task of it.
pub record Closes (next : ℕ → ℕ) (e : ℕ) (p : TaskPool) : Type 0 where
  pub reach : Workers.Reach next p
  pub real : e ≢ 0
  pub unposted : count e p.posted ≡ 0
  pub unused : tally (runs e) p.workers ≡ 0
  pub all_there : tally is_gone p.workers ≡ 0

destroy-Sound :
    (next : ℕ → ℕ) (e : ℕ) (p : TaskPool) → Closes next e p → (xs : List ℕ) × Sound e (destroy p) xs
unfolding destroy
destroy-Sound next e p k =
    let (xs, g) = Reach-Good next k.reach in
    (
      xs,
      record {
        inv = g.inv;
        size = g.sizes.workers;
        awake = g.awake;
        at = (
          omega (arith, k.unposted, ap (count e) g.inv.order, count-append e p.started xs),
          k.unused,
          k.all_there,
          inl refl,
        );
      },
    )

pub Reach-Sound :
    (next : ℕ → ℕ) (e : ℕ) (p : TaskPool) {c : Closing}
    → Closes next e p
    → Reach e p c
    → (xs : List ℕ) × Sound e c xs
Reach-Sound next e p k start = destroy-Sound next e p k
Reach-Sound next e p k (later r st) =
    let (xs, s) = Reach-Sound next e p k r in Step-Sound e xs k.real s st
Reach-Sound next e p k (wakes_early {c} i r at early) =
    let (xs, s) = Reach-Sound next e p k r in (rest xs, early-Sound e c xs i s at early)

-- Nobody is left who could use the pool, and no task was lost.
pub record Over (c : Closing) : Type 0 where
  pub left_alone : (i : ℕ) (w : Worker) → get_elem? c.pool.workers i ≡ some w → w ≡ gone
  pub all_started : c.pool.posted ≡ c.pool.started
  pub empty : c.pool.links.first ≡ 0
