-- ===== src/Typing/Lines.antt =====
-- Which lines the thread takes.
use mathlib.Core.Path.{subst}
use mathlib.Core.List.{append_assoc, append-nil}
use os_study_code.Base.{
  ℕ, ◌≡◌, ◌≢◌, refl, sym, ap, ◌∙◌, ◌⊎◌, inl, inr, Bool, true, List, [], ◌∷◌, ◌++◌,
}
use os_study_code.Typing.{
  MainAt, fetching, waiting, ThreadAt, testing, reporting, clearing, sleeping, leaving, wiping,
  finished, Desk,
}

-- How the thread began: with a line in the buffer, or with none, and then a line may have come
-- before it cleared the buffer.
pub data Beginning : Type 0 where
  in_order : Beginning
  too_early : Beginning
  lost : List ℕ → Beginning

-- What was taken, and read, for no line that is both.
abbrev pub extra : Beginning → List (List ℕ)
extra in_order = []
extra too_early = [] ∷ []
extra (lost line) = [] ∷ []

abbrev pub missed : Beginning → List (List ℕ)
missed in_order = []
missed too_early = []
missed (lost line) = line ∷ []

-- The line in the buffer, if there is one.
abbrev pub held : List ℕ → List (List ℕ)
held [] = []
held (c ∷ cs) = (c ∷ cs) ∷ []

-- The line that is still to be taken.
abbrev pub outstanding : ThreadAt → List ℕ → List (List ℕ)
outstanding testing area = held area
outstanding reporting area = held area
outstanding clearing area = []
outstanding sleeping area = held area
outstanding leaving area = held area
outstanding wiping area = []
outstanding finished area = []

-- When the buffer may be empty, and where the main thread is once the thread has ended.
abbrev pub Fits : ThreadAt → Bool → MainAt → List ℕ → Beginning → List (List ℕ) → Type 0
Fits testing off main area b rest = (area ≢ []) ⊎ ((b ≡ in_order) × (rest ≡ []))
Fits reporting off main area b rest = (area ≢ []) ⊎ ((b ≡ in_order) × (rest ≡ []))
Fits clearing off main area b rest = (area ≢ []) ⊎ ((b ≡ too_early) × (rest ≡ []))
Fits sleeping off main area b rest = Unit
Fits leaving off main area b rest = area ≢ []
Fits wiping off main area b rest = (area ≢ []) × (off ≡ true)
Fits finished off main area b rest = (off ≡ true) × (main ≢ fetching)

-- With the lines `rest` that were both read and taken, or are in the buffer.
pub record Kept (d : Desk) (b : Beginning) (rest : List (List ℕ)) : Type 0 where
  pub all_taken : d.taken ++ outstanding d.at_thread d.work_area ≡ extra b ++ rest
  pub all_read : d.reads ≡ missed b ++ rest
  pub waits : d.work_area ≢ [] → d.at_main ≡ waiting
  pub fits : Fits d.at_thread d.time_to_exit d.at_main d.work_area b rest

pub held-nonempty : (area : List ℕ) → area ≢ [] → held area ≡ area ∷ []
held-nonempty [] ne = absurd (ne refl)
held-nonempty (c ∷ cs) ne = refl

Fits-main :
    (t : ThreadAt) (off : Bool) (main main' : MainAt) (area : List ℕ) (b : Beginning)
    (rest : List (List ℕ))
    → (off ≡ true → main' ≢ fetching)
    → Fits t off main area b rest
    → Fits t off main' area b rest
Fits-main testing off main main' area b rest out h = h
Fits-main reporting off main main' area b rest out h = h
Fits-main clearing off main main' area b rest out h = h
Fits-main sleeping off main main' area b rest out h = h
Fits-main leaving off main main' area b rest out h = h
Fits-main wiping off main main' area b rest out h = h
Fits-main finished off main main' area b rest out (ended, away) = (ended, out ended)

-- A step of the main thread that reads nothing.
pub moves :
    {d : Desk} {b : Beginning} {rest : List (List ℕ)} (main : MainAt)
    → (d.work_area ≢ [] → main ≡ waiting)
    → (d.time_to_exit ≡ true → main ≢ fetching)
    → Kept d b rest
    → Kept (record d { at_main = main }) b rest
moves {d} main full out k = record {
  all_taken = k.all_taken;
  all_read = k.all_read;
  waits = full;
  fits = Fits-main d.at_thread _ _ _ _ _ _ out k.fits;
}

-- What holds at the place where the thread is.
pub stands :
    {d : Desk} {b : Beginning} {rest : List (List ℕ)} (t : ThreadAt)
    → d.at_thread ≡ t
    → Kept d b rest
    → (d.taken ++ outstanding t d.work_area ≡ extra b ++ rest)
      × Fits t d.time_to_exit d.at_main d.work_area b rest
stands {d} {b} {rest} t e k = (
  ap (λ x. d.taken ++ outstanding x d.work_area) (sym e) ∙ k.all_taken,
  subst (λ x. Fits x d.time_to_exit d.at_main d.work_area b rest) e k.fits,
)

-- Some beginning and some lines fit.
abbrev pub Accounted : Desk → Type 0
Accounted d = (b : Beginning) × (rest : List (List ℕ)) × Kept d b rest

pub grows :
    (line : List ℕ) (ts es rest : List (List ℕ))
    → line ≢ []
    → ts ++ [] ≡ es ++ rest
    → ts ++ held line ≡ es ++ (rest ++ (line ∷ []))
grows line ts es rest ne e =
    ap (λ x. ts ++ x) (held-nonempty line ne)
    ∙ (ap (λ x. x ++ (line ∷ [])) (sym (append-nil ts) ∙ e) ∙ append_assoc es rest (line ∷ []))

pub is_empty : (xs : List ℕ) → (xs ≡ []) ⊎ (xs ≢ [])
is_empty [] = inl refl
is_empty (x ∷ xs) = inr (λ e. cc)
