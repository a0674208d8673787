-- ===== src/Typing/Taken.antt =====
-- thread/inputm.c: which of the typed lines the thread takes.
use mathlib.Core.Path.{subst}
use mathlib.Core.List.{append_assoc, append-nil}
use os_study_code.Base.{ℕ, ◌≡◌, ◌≢◌, refl, sym, ap, ◌∙◌, inl, inr, true, List, [], ◌∷◌, ◌++◌}
use os_study_code.Typing.{
  looking, fetching, waiting, joining, joined, ThreadAt, testing, reporting, clearing, sleeping,
  leaving, wiping, Desk, is_end, opening, fetch, report, clear, leave, wipe, Step, goes_on, stops,
  fetches, fetches_none, sees_empty, joins, tests_end, tests_more, reports, clears, wakes, leaves,
  wipes, Reach, start, later,
}
use os_study_code.Typing.Lines.{
  Beginning, in_order, too_early, extra, missed, held, outstanding, Fits, Kept, held-nonempty,
  moves, stands, Accounted, is_empty,
}
use os_study_code.Typing.Fetched.{both, fetch-Accounted}

-- The cases of the thread.
report-Kept :
    (d : Desk) (b : Beginning) (rest : List (List ℕ))
    → d.work_area ≢ []
    → d.taken ++ held d.work_area ≡ extra b ++ rest
    → Kept d b rest
    → Kept (report d) b rest
report-Kept d b rest full ts k = record {
  all_taken =
      append-nil (d.taken ++ (d.work_area ∷ []))
      ∙ (ap (λ x. d.taken ++ x) (sym (held-nonempty d.work_area full)) ∙ ts);
  all_read = k.all_read;
  waits = k.waits;
  fits = inl full;
}

early :
    (d : Desk)
    → d.work_area ≡ []
    → d.taken ++ [] ≡ []
    → d.reads ≡ []
    → (d.work_area ≢ [] → d.at_main ≡ waiting)
    → Kept (report d) too_early []
early d empty ts rs w = record {
  all_taken =
      append-nil (d.taken ++ (d.work_area ∷ []))
      ∙ ((ap (λ x. x ++ (d.work_area ∷ [])) (sym (append-nil d.taken) ∙ ts))
          ∙ ap (λ x. x ∷ []) empty);
  all_read = rs;
  waits = w;
  fits = inr (refl, refl);
}

clear-Kept :
    (d : Desk) (b : Beginning) (rest : List (List ℕ))
    → d.taken ++ [] ≡ extra b ++ rest
    → Kept d b rest
    → Kept (clear d) b rest
unfolding clear
clear-Kept d b rest ts k = record {
  all_taken = ts;
  all_read = k.all_read;
  waits = λ full. absurd (full refl);
  fits = tt;
}

leave-Kept :
    (d : Desk) (b : Beginning) (rest : List (List ℕ))
    → d.work_area ≢ []
    → d.taken ++ held d.work_area ≡ extra b ++ rest
    → Kept d b rest
    → Kept (leave d) b rest
leave-Kept d b rest full ts k = record {
  all_taken =
      append-nil (d.taken ++ (d.work_area ∷ []))
      ∙ (ap (λ x. d.taken ++ x) (sym (held-nonempty d.work_area full)) ∙ ts);
  all_read = k.all_read;
  waits = k.waits;
  fits = (full, refl);
}

wipe-Kept :
    (d : Desk) (b : Beginning) (rest : List (List ℕ))
    → d.work_area ≢ []
    → d.time_to_exit ≡ true
    → d.taken ++ [] ≡ extra b ++ rest
    → Kept d b rest
    → Kept (wipe d) b rest
wipe-Kept d b rest full off ts k = record {
  all_taken = ts;
  all_read = k.all_read;
  waits = λ never. absurd (never refl);
  fits = (off, let there = k.waits full in λ e. cc);
}

reports-Accounted :
    (d : Desk) (b : Beginning) (rest : List (List ℕ))
    → d.taken ++ held d.work_area ≡ extra b ++ rest
    → Fits reporting d.time_to_exit d.at_main d.work_area b rest
    → Kept d b rest
    → Accounted (report d)
reports-Accounted d b rest ts (inl full) k = (b, rest, report-Kept d b rest full ts k)
reports-Accounted d b rest ts (inr (eb, er)) k = elim (is_empty d.work_area) [
  | inr full ↦ (b, rest, report-Kept d b rest full ts k)
  | inl empty ↦ (
    too_early,
    [],
    early d empty (ap (λ x. d.taken ++ held x) (sym empty) ∙ (ts ∙ both extra eb er))
        (k.all_read ∙ both missed eb er) k.waits,
  )
]

ends_nonempty : (area : List ℕ) → is_end area ≡ true → area ≢ []
ends_nonempty [] e = absurd cc
ends_nonempty (c ∷ cs) e = λ x. cc

-- The thread goes on to `t`, the buffer as it was.
turns :
    {d : Desk} {b : Beginning} {rest : List (List ℕ)} (t : ThreadAt)
    → d.taken ++ outstanding t d.work_area ≡ extra b ++ rest
    → Fits t d.time_to_exit d.at_main d.work_area b rest
    → Kept d b rest
    → Kept (record d { at_thread = t }) b rest
turns t ts fit k = record { all_taken = ts; all_read = k.all_read; waits = k.waits; fits = fit }

read-Accounted :
    (line : List ℕ) (lines : List (List ℕ)) (d : Desk) (b : Beginning) (rest : List (List ℕ))
    → d.at_main ≡ fetching
    → d.work_area ≡ []
    → line ≢ []
    → Kept d b rest
    → Accounted (fetch line lines d)
read-Accounted line lines d b rest at empty ne k =
    fetch-Accounted d.at_thread line lines d b rest refl ne
      (ap (λ x. d.taken ++ outstanding d.at_thread x) (sym empty) ∙ k.all_taken) k.all_read
      (subst (λ x. Fits d.at_thread d.time_to_exit fetching x b rest) empty
        (subst (λ x. Fits d.at_thread d.time_to_exit x d.work_area b rest) at k.fits))

Step-Accounted : {d e : Desk} → Step d e → Accounted d → Accounted e
Step-Accounted {d} (goes_on at on) (b, rest, k) =
    (b, rest, moves fetching (λ full. let w = k.waits full in absurd cc) (λ off. absurd cc) k)
Step-Accounted (stops at off) (b, rest, k) =
    (b, rest, moves joining (λ full. let w = k.waits full in absurd cc) (λ o e. cc) k)
Step-Accounted {d} (fetches line lines at new ne) (b, rest, k) = elim (is_empty d.work_area) [
  | inr full ↦ let w = k.waits full in absurd cc
  | inl empty ↦ read-Accounted line lines d b rest at empty ne k
]
Step-Accounted (fetches_none at none_left) (b, rest, k) =
    (b, rest, moves waiting (λ full. refl) (λ o e. cc) k)
Step-Accounted (sees_empty at empty) (b, rest, k) =
    (b, rest, moves looking (λ full. absurd (full empty)) (λ o e. cc) k)
Step-Accounted (joins at done) (b, rest, k) =
    (b, rest, moves joined (λ full. let w = k.waits full in absurd cc) (λ o e. cc) k)
Step-Accounted {d} (tests_end at ends) (b, rest, k) =
    let (ts, fit) = stands testing at k in
    (b, rest, turns leaving ts (ends_nonempty d.work_area ends) k)
Step-Accounted (tests_more at more) (b, rest, k) =
    let (ts, fit) = stands testing at k in (b, rest, turns reporting ts fit k)
Step-Accounted {d} (reports at) (b, rest, k) =
    let (ts, fit) = stands reporting at k in reports-Accounted d b rest ts fit k
Step-Accounted {d} (clears at) (b, rest, k) =
    let (ts, fit) = stands clearing at k in (b, rest, clear-Kept d b rest ts k)
Step-Accounted (wakes at full) (b, rest, k) =
    let (ts, fit) = stands sleeping at k in (b, rest, turns testing ts (inl full) k)
Step-Accounted {d} (leaves at) (b, rest, k) =
    let (ts, full) = stands leaving at k in (b, rest, leave-Kept d b rest full ts k)
Step-Accounted {d} (wipes at) (b, rest, k) =
    let (ts, (full, off)) = stands wiping at k in (b, rest, wipe-Kept d b rest full off ts k)

opening-Accounted : (typed : List (List ℕ)) → Accounted (opening typed)
opening-Accounted typed = (
  in_order,
  [],
  record {
    all_taken = refl;
    all_read = refl;
    waits = λ full. absurd (full refl);
    fits = inr (refl, refl);
  },
)

Reach-Accounted : {typed : List (List ℕ)} {d : Desk} → Reach typed d → Accounted d
Reach-Accounted {typed} start = opening-Accounted typed
Reach-Accounted (later r s) = Step-Accounted s (Reach-Accounted r)

Step-typed : {d e : Desk} → Step d e → e.reads ++ e.typed ≡ d.reads ++ d.typed
unfolding clear
Step-typed (goes_on at on) = refl
Step-typed (stops at off) = refl
Step-typed {d} (fetches line lines at new ne) =
    append_assoc d.reads (line ∷ []) lines ∙ ap (λ x. d.reads ++ x) (sym new)
Step-typed (fetches_none at none_left) = refl
Step-typed (sees_empty at empty) = refl
Step-typed (joins at done) = refl
Step-typed (tests_end at ends) = refl
Step-typed (tests_more at more) = refl
Step-typed (reports at) = refl
Step-typed (clears at) = refl
Step-typed (wakes at full) = refl
Step-typed (leaves at) = refl
Step-typed (wipes at) = refl

Reach-typed : {typed : List (List ℕ)} {d : Desk} → Reach typed d → d.reads ++ d.typed ≡ typed
Reach-typed start = refl
Reach-typed (later r s) = Step-typed s ∙ Reach-typed r

-- In every state that the main thread and the thread that reports get to, in any interleaving of
-- their steps, the lines read are in order the first of those typed, and the texts taken, with a
-- line in the buffer that is still to be taken, are those lines in order, except in one way: the
-- first text taken may be the empty one, for no line, and then the first line read may be lost.
pub Reach-taken :
    (typed : List (List ℕ)) (d : Desk)
    → Reach typed d
    → (b : Beginning) × (rest : List (List ℕ)) × (d.taken ++ outstanding d.at_thread d.work_area
        ≡ extra b ++ rest)
      × (d.reads ≡ missed b ++ rest)
      × (d.reads ++ d.typed ≡ typed)
Reach-taken typed d r =
    let (b, rest, k) = Reach-Accounted r in (b, rest, k.all_taken, k.all_read, Reach-typed r)
