-- ===== src/Frame/Release.antt =====
-- What the two programs give back on every path.
use mathlib.Core.Path.{subst}
use os_study_code.Base.{
  eq_of_==, ℕ, ◌-◌, ◌^◌, ◌<◌, ◌≡◌, refl, sym, ap, ◌∙◌, inl, inr, true, false, Option, none, some,
  List, ◌∷◌, take, drop, length, ltb, ◌==◌, arith, Bool-cases, ◌⊎◌, take-take,
}
use os_study_code.Base.Int.{ℤ, pos, negsuc}
use os_study_code.Base.Text.{ntohl}
use os_study_code.Sys.{content, Sys, Call, invoke, got, ◌>>=◌, log}
use os_study_code.Sys.Runs.{Leaves, both_back, recv_into-Received}
use os_study_code.Sys.Held.{Resource, fd, memory, held, is_null, close_top}
use os_study_code.Frame.{
  hang_up, drop_frame, respond_frame, answer, fill, read_content, serve_client, serve_accepted,
  serve_next, room_for, is_length, header_size, tagged,
}

hang_up-Leaves :
    (c : ℕ) (qs : List Resource) (s : Sys) → held s.calls ≡ fd c ∷ qs → Leaves qs (hang_up c s)
unfolding hang_up invoke
hang_up-Leaves c qs s h = rw h (close_top c (s.results s.tick) qs)

drop_frame-Leaves :
    (c : ℕ) (p : ℤ) (qs : List Resource) (s : Sys)
    → is_null p ≡ false
    → held s.calls ≡ memory p ∷ fd c ∷ qs
    → Leaves qs (drop_frame c p s)
unfolding drop_frame invoke
drop_frame-Leaves c p qs s given h = both_back c p (held s.calls) qs given h

respond_frame-Leaves :
    (c : ℕ) (p : ℤ) (n : ℕ) (bytes : List ℕ) (qs : List Resource) (s : Sys)
    → is_null p ≡ false
    → n < room_for n
    → held s.calls ≡ memory p ∷ fd c ∷ qs
    → Leaves qs (respond_frame c p n bytes s)
unfolding respond_frame invoke
respond_frame-Leaves c p n bytes qs s given fits h =
    let inside : ltb n (room_for n) ≡ true = ground arith in
    rw (inside, ◌>>=◌) (both_back c p (held s.calls) qs given h)

-- A header that comes whole is the first eight bytes of the stream.
pub header-take :
    (b : Option (List ℕ)) (s : Sys)
    → (b ≡ none) ⊎ ((k : ℕ) × (b ≡ some (got 8 k s.stream)))
    → (length (content b) == 8) ≡ true
    → content b ≡ take 8 s.stream
header-take b s (inl fails) whole =
    let short : (0 == 8) ≡ true = subst (λ b. (length (content b) == 8) ≡ true) fails whole in
    absurd (ground arith)
header-take b s (inr (k, comes)) whole =
    let e : content b ≡ got 8 k s.stream = ap content comes in
    e ∙ take-take 8 k s.stream (sym (ap length e) ∙ eq_of_== (length (content b)) 8 whole)

-- The announced length: 2 ^ 32 - 1 leaves no room.
abbrev pub Fits : ℕ → Type 0
Fits n = n < 2 ^ 32 - 1

fill-Leaves :
    (c n : ℕ) (p : ℤ) (qs : List Resource) (s : Sys)
    → Fits n
    → is_null p ≡ false
    → held s.calls ≡ memory p ∷ fd c ∷ qs
    → Leaves qs (fill c n p s)
unfolding fill answer
fill-Leaves c n p qs s fits given h =
    let (b, s', e, r) = recv_into-Received c n (room_for n) s (omega arith) in
    rw (e, ◌>>=◌)
      (elim (Bool-cases (is_length b n)) [
        | inl whole ↦
            rw whole
              (respond_frame-Leaves c p n (content b) qs s' given (omega arith) (r.same_held ∙ h))
        | inr other ↦ rw other (drop_frame-Leaves c p qs s' given (r.same_held ∙ h))
      ])

read_content-Leaves :
    (c n : ℕ) (qs : List Resource) (s : Sys)
    → Fits n
    → held s.calls ≡ fd c ∷ qs
    → Leaves qs (read_content c n s)
unfolding read_content invoke
read_content-Leaves c n qs s fits h =
    let p = s.results s.tick in
    let s' = log (Call.alloc (room_for n)) p s in
    elim (Bool-cases (is_null p)) [
      | inl null ↦
          let h' : held s'.calls ≡ fd c ∷ qs = rw null h in rw null (hang_up-Leaves c qs s' h')
      | inr given ↦
          let h' : held s'.calls ≡ memory p ∷ fd c ∷ qs = rw (given, h) refl in
          rw given (fill-Leaves c n p qs s' fits given h')
    ]

serve_client-Leaves :
    (c : ℕ) (qs : List Resource) (s : Sys)
    → Fits (ntohl (drop 4 (take 8 s.stream)))
    → held s.calls ≡ fd c ∷ qs
    → Leaves qs (serve_client c s)
unfolding serve_client
serve_client-Leaves c qs s fits h =
    let (b, s', e, r) = recv_into-Received c header_size header_size s (omega arith) in
    let h' : held s'.calls ≡ fd c ∷ qs = r.same_held ∙ h in
    rw (e, ◌>>=◌)
      (elim (Bool-cases (length (content b) == header_size)) [
        | inl whole ↦ rw whole (elim (Bool-cases (tagged (content b))) [
          | inl ours ↦ rw ours (
              read_content-Leaves c (ntohl (drop 4 (content b))) qs s'
                (subst (λ l. Fits (ntohl (drop 4 l))) (sym (header-take b s r.part whole)) fits) h')
          | inr strange ↦ rw strange (hang_up-Leaves c qs s' h')
        ])
        | inr short ↦ rw short (hang_up-Leaves c qs s' h')
      ])

-- Whatever accept, read and malloc return, if the header does not announce 2 ^ 32 - 1 bytes, a
-- round of the server of frames ends without a fault, and it has closed and freed all that it
-- opened and allocated.
pub serve_next-Leaves :
    (sock : ℕ) (s : Sys)
    → Fits (ntohl (drop 4 (take 8 s.stream)))
    → Leaves (held s.calls) (serve_next sock s)
unfolding serve_next invoke
serve_next-Leaves sock s fits = accepted (s.results s.tick)
  where
    accepted : (r : ℤ) → Leaves (held s.calls) (serve_accepted r (log (Call.accept sock) r s))
    accepted (negsuc n) = refl
    accepted (pos c) =
        serve_client-Leaves c (held s.calls) (log (Call.accept sock) (pos c) s) fits refl
