-- ===== src/HandOver/Progress.antt =====
-- The hand-over does not get stuck.
use os_study_code.Base.{
  ℕ, ap, ◌==◌, ◌-◌, ◌≡◌, refl, sym, ◌∙◌, ◌⊎◌, inl, inr, Bool, true, false, Option, none, some,
  arith, Bool-cases, eq_of_some,
}
use mathlib.Core.Path.{subst}
use os_study_code.HandOver.{
  Main, reading, posting, testing, joining, Reader, waiting, printing, checking, done, HandOver,
  main_from, reader_from, main_step, reader_step, Reach, start, by_main, by_reader,
}

module _ (is_end : ℕ → Bool) where
  abbrev posted : Main → Bool
  posted reading = false
  posted posting = false
  posted testing = true
  posted joining = true

  -- `main` joins after the last line; and where the thread waits with nothing to take after a post,
  -- it has seen that the line is not the last.
  pub record Fine (m : Main) (r : Reader) (sem buff : ℕ) : Type 0 where
    pub ended : m ≡ joining → is_end buff ≡ true
    pub seen : r ≡ waiting → sem ≡ 0 → posted m ≡ true → is_end buff ≡ false

  abbrev pub Sound : HandOver → Type 0
  Sound h = Fine h.at_main h.at_reader h.sem h.buff

  main_from-Sound :
      (m : Main) (line : Option ℕ) (h h' : HandOver)
      → Fine m h.at_reader h.sem h.buff
      → main_from is_end m line h ≡ some h'
      → Sound h'
  unfolding main_from
  main_from-Sound reading none h h' f e =
      subst Sound (eq_of_some e) (record { ended = λ x. cc; seen = λ x y z. cc })
  main_from-Sound reading (some l) h h' f e =
      subst Sound (eq_of_some e) (record { ended = λ x. cc; seen = λ x y z. cc })
  main_from-Sound posting line h h' f e =
      subst Sound (eq_of_some e) (record { ended = λ x. cc; seen = λ x y z. absurd (omega arith) })
  main_from-Sound testing line h h' f e =
      subst Sound (eq_of_some e) (elim (Bool-cases (is_end h.buff)) [
        | inl last ↦ rw last (record { ended = λ x. last; seen = λ x y z. f.seen x y refl })
        | inr more ↦ rw more (record { ended = λ x. cc; seen = λ x y z. cc })
      ])
  main_from-Sound joining line h h' f e = cc

  taken :
      (h : HandOver)
      → (h.sem == 0) ≡ false
      → reader_from is_end waiting h ≡ some (record h { sem = h.sem - 1; at_reader = printing })
  unfolding reader_from
  taken h full = rw full refl

  stuck : (h : HandOver) → (h.sem == 0) ≡ true → reader_from is_end waiting h ≡ none
  unfolding reader_from
  stuck h empty = rw empty refl

  reader_from-Sound :
      (r : Reader) (h h' : HandOver)
      → Fine h.at_main r h.sem h.buff
      → reader_from is_end r h ≡ some h'
      → Sound h'
  unfolding reader_from
  reader_from-Sound waiting h h' f e = elim (Bool-cases (h.sem == 0)) [
    | inl empty ↦ let no : none ≡ some h' = sym (stuck h empty) ∙ e in cc
    | inr full ↦
        subst Sound (eq_of_some (sym (taken h full) ∙ e))
          (record { ended = f.ended; seen = λ x y z. cc })
  ]
  reader_from-Sound printing h h' f e =
      subst Sound (eq_of_some e) (record { ended = f.ended; seen = λ x y z. cc })
  reader_from-Sound checking h h' f e =
      subst Sound (eq_of_some e) (elim (Bool-cases (is_end h.buff)) [
        | inl last ↦ rw last (record { ended = f.ended; seen = λ x y z. cc })
        | inr more ↦ rw more (record { ended = f.ended; seen = λ x y z. more })
      ])
  reader_from-Sound done h h' f e = cc

  Reach-Fine : {h : HandOver} → Reach is_end h → Sound h
  Reach-Fine start = record { ended = λ x. cc; seen = λ x y z. cc }
  Reach-Fine (by_main {h} {h'} line r e) = main_from-Sound h.at_main line h h' (Reach-Fine r) e
  Reach-Fine (by_reader {h} {h'} r e) = reader_from-Sound h.at_reader h h' (Reach-Fine r) e

  main_from-moves :
      (m : Main) (line : Option ℕ) (h : HandOver)
      → ((h' : HandOver) × (main_from is_end m line h ≡ some h')) ⊎ (m ≡ joining)
  unfolding main_from
  main_from-moves reading none h = inl (_, refl)
  main_from-moves reading (some l) h = inl (_, refl)
  main_from-moves posting line h = inl (_, refl)
  main_from-moves testing line h = inl (_, refl)
  main_from-moves joining line h = inr refl

  reader_from-moves :
      (r : Reader) (h : HandOver)
      → ((h' : HandOver) × (reader_from is_end r h ≡ some h'))
        ⊎ ((r ≡ done) ⊎ ((r ≡ waiting) × (h.sem ≡ 0)))
  unfolding reader_from
  reader_from-moves waiting h = elim (Bool-cases (h.sem == 0)) [
    | inl empty ↦ inr (inr (refl, ground arith))
    | inr full ↦ inl (record h { sem = h.sem - 1; at_reader = printing }, rw full refl)
  ]
  reader_from-moves printing h = inl (_, refl)
  reader_from-moves checking h = inl (_, refl)
  reader_from-moves done h = inr (inl refl)

  -- In every reachable state, whatever fgets reads next, main or the thread can take a step, or
  -- main has reached pthread_join and the thread has left its loop: after the last line the
  -- thread does not wait for ever.
  pub Reach-joining :
      {h : HandOver} (line : Option ℕ)
      → Reach is_end h
      → ((h' : HandOver) × ((main_step is_end line h ≡ some h') ⊎ (reader_step is_end h ≡ some h')))
        ⊎ ((h.at_main ≡ joining) × (h.at_reader ≡ done))
  Reach-joining {h} line r =
      let f = Reach-Fine r in
      elim (main_from-moves h.at_main line h) [
        | inl (h', e) ↦ inl (h', inl e)
        | inr joins ↦ elim (reader_from-moves h.at_reader h) [
          | inl (h', e) ↦ inl (h', inr e)
          | inr (inl over) ↦ inr (joins, over)
          | inr (inr (waits, empty)) ↦
              let all : is_end h.buff ≡ true = f.ended joins in
              let more : is_end h.buff ≡ false = f.seen waits empty (ap posted joins) in cc
        ]
      ]
