-- ===== src/Typing/Fetched.antt =====
-- thread/inputm.c: the main thread reads a line into an empty buffer.
use mathlib.Core.Path.{subst}
use mathlib.Core.List.{append_assoc}
use os_study_code.Base.{ℕ, ◌≡◌, ◌≢◌, refl, sym, ap, ◌∙◌, inl, inr, List, [], ◌∷◌, ◌++◌}
use os_study_code.Typing.{
  fetching, waiting, ThreadAt, testing, reporting, clearing, sleeping, leaving, wiping, finished,
  Desk, fetch,
}
use os_study_code.Typing.Lines.{
  Beginning, lost, extra, missed, held, outstanding, Fits, Kept, Accounted, grows,
}

appended :
    (t : ThreadAt) (line : List ℕ) (lines : List (List ℕ)) (d : Desk) (b : Beginning)
    (rest : List (List ℕ))
    → d.at_thread ≡ t
    → outstanding t line ≡ held line
    → line ≢ []
    → d.taken ++ [] ≡ extra b ++ rest
    → d.reads ≡ missed b ++ rest
    → Fits t d.time_to_exit waiting line b (rest ++ (line ∷ []))
    → Kept (fetch line lines d) b (rest ++ (line ∷ []))
appended t line lines d b rest at same ne ts rs fit = record {
  all_taken =
      ap (λ x. d.taken ++ outstanding x line) at
      ∙ (ap (λ x. d.taken ++ x) same ∙ grows line d.taken (extra b) rest ne ts);
  all_read = ap (λ x. x ++ (line ∷ [])) rs ∙ append_assoc (missed b) rest (line ∷ []);
  waits = λ full. refl;
  fits = subst (λ x. Fits x d.time_to_exit waiting line b (rest ++ (line ∷ []))) (sym at) fit;
}

too_late :
    (line : List ℕ) (lines : List (List ℕ)) (d : Desk)
    → d.at_thread ≡ clearing
    → line ≢ []
    → d.taken ++ [] ≡ [] ∷ []
    → d.reads ≡ []
    → Kept (fetch line lines d) (lost line) []
too_late line lines d at ne ts rs = record {
  all_taken = ap (λ x. d.taken ++ outstanding x line) at ∙ ts;
  all_read = ap (λ x. x ++ (line ∷ [])) rs;
  waits = λ full. refl;
  fits = subst (λ x. Fits x d.time_to_exit waiting line (lost line) []) (sym at) (inl ne);
}

pub both :
    (f : Beginning → List (List ℕ)) {b c : Beginning} {rest : List (List ℕ)}
    → b ≡ c
    → rest ≡ []
    → f b ++ rest ≡ f c ++ []
both f eb er = cc

-- The main thread reads a line, the buffer being empty.
pub fetch-Accounted :
    (t : ThreadAt) (line : List ℕ) (lines : List (List ℕ)) (d : Desk) (b : Beginning)
    (rest : List (List ℕ))
    → d.at_thread ≡ t
    → line ≢ []
    → (d.taken ++ outstanding t [] ≡ extra b ++ rest)
    → (d.reads ≡ missed b ++ rest)
    → Fits t d.time_to_exit fetching [] b rest
    → Accounted (fetch line lines d)
fetch-Accounted testing line lines d b rest at ne ts rs h =
    (b, rest ++ (line ∷ []), appended testing line lines d b rest at refl ne ts rs (inl ne))
fetch-Accounted reporting line lines d b rest at ne ts rs h =
    (b, rest ++ (line ∷ []), appended reporting line lines d b rest at refl ne ts rs (inl ne))
fetch-Accounted clearing line lines d b rest at ne ts rs (inl full) = absurd (full refl)
fetch-Accounted clearing line lines d b rest at ne ts rs (inr (eb, er)) =
    (lost line, [], too_late line lines d at ne (ts ∙ both extra eb er) (rs ∙ both missed eb er))
fetch-Accounted sleeping line lines d b rest at ne ts rs h =
    (b, rest ++ (line ∷ []), appended sleeping line lines d b rest at refl ne ts rs tt)
fetch-Accounted leaving line lines d b rest at ne ts rs full = absurd (full refl)
fetch-Accounted wiping line lines d b rest at ne ts rs (full, off) = absurd (full refl)
fetch-Accounted finished line lines d b rest at ne ts rs (off, away) = absurd (away refl)
