-- ===== src/Typing.antt =====
-- thread/inputm.c: a thread reports the lines that the main thread reads into `work_area`.
--
-- The threads interleave at every step. `work_area` is the string in the buffer, `typed` the lines
-- that `fgets` has still to deliver, `reads` those that it has delivered, and `taken` the texts that
-- the thread has reported or ended at, both in order. Creating the thread is assumed to succeed.
pub mod Lines
pub mod Fetched
pub mod Taken
mod Tests
use os_study_code.Base.{ℕ, ◌≡◌, ◌≢◌, Bool, true, false, List, [], ◌∷◌, ◌++◌, ◌==◌, if◌then◌else◌}
use os_study_code.Base.Text.{codes}

-- At `while(!time_to_exit)`, in `fgets`, in the loop that waits, in `pthread_join`, after it.
pub data MainAt : Type 0 where
  looking fetching waiting joining joined : MainAt

-- At `strncmp`, at `printf`, at `work_area[0] = '\0'` after it, in the loop that sleeps, at
-- `time_to_exit = 1`, at the last assignment, after `pthread_exit`.
pub data ThreadAt : Type 0 where
  testing reporting clearing sleeping leaving wiping finished : ThreadAt

pub record Desk : Type 0 where
  pub work_area : List ℕ
  pub time_to_exit : Bool
  pub at_main : MainAt
  pub at_thread : ThreadAt
  pub typed : List (List ℕ)
  pub reads : List (List ℕ)
  pub taken : List (List ℕ)

-- `strncmp("end", text, 3) == 0`
abbrev pub starts : List ℕ → List ℕ → Bool
starts [] text = true
starts (p ∷ ps) [] = false
starts (p ∷ ps) (c ∷ cs) = if p == c then starts ps cs else false

abbrev pub is_end : List ℕ → Bool
is_end text = starts (codes "end") text

abbrev pub opening : List (List ℕ) → Desk
opening typed = record {
  work_area = [];
  time_to_exit = false;
  at_main = looking;
  at_thread = testing;
  typed = typed;
  reads = [];
  taken = [];
}

abbrev pub fetch : List ℕ → List (List ℕ) → Desk → Desk
fetch line lines d = record d {
  work_area = line;
  typed = lines;
  reads = d.reads ++ (line ∷ []);
  at_main = waiting;
}

abbrev pub report : Desk → Desk
report d = record d { taken = d.taken ++ (d.work_area ∷ []); at_thread = clearing }

unfoldable pub clear : Desk → Desk
clear d = record d { work_area = []; at_thread = sleeping }

abbrev pub leave : Desk → Desk
leave d = record d {
  taken = d.taken ++ (d.work_area ∷ []);
  time_to_exit = true;
  at_thread = wiping;
}

abbrev pub wipe : Desk → Desk
wipe d = record d { work_area = []; at_thread = finished }

pub data Step (d : Desk) : Desk → Type 0 where
  goes_on : d.at_main ≡ looking → d.time_to_exit ≡ false → Step d (record d { at_main = fetching })
  stops : d.at_main ≡ looking → d.time_to_exit ≡ true → Step d (record d { at_main = joining })
  fetches :
      (line : List ℕ) (lines : List (List ℕ))
      → d.at_main ≡ fetching
      → d.typed ≡ line ∷ lines
      → line ≢ []
      → Step d (fetch line lines d)
  fetches_none : d.at_main ≡ fetching → d.typed ≡ [] → Step d (record d { at_main = waiting })
  sees_empty : d.at_main ≡ waiting → d.work_area ≡ [] → Step d (record d { at_main = looking })
  joins : d.at_main ≡ joining → d.at_thread ≡ finished → Step d (record d { at_main = joined })
  tests_end :
      d.at_thread ≡ testing → is_end d.work_area ≡ true → Step d (record d { at_thread = leaving })
  tests_more :
      d.at_thread ≡ testing
      → is_end d.work_area ≡ false
      → Step d (record d { at_thread = reporting })
  reports : d.at_thread ≡ reporting → Step d (report d)
  clears : d.at_thread ≡ clearing → Step d (clear d)
  wakes : d.at_thread ≡ sleeping → d.work_area ≢ [] → Step d (record d { at_thread = testing })
  leaves : d.at_thread ≡ leaving → Step d (leave d)
  wipes : d.at_thread ≡ wiping → Step d (wipe d)

pub data Reach (typed : List (List ℕ)) : Desk → Type 0 where
  start : Reach typed (opening typed)
  later : {d e : Desk} → Reach typed d → Step d e → Reach typed e
