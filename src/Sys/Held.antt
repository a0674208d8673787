-- ===== src/Sys/Held.antt =====
-- What a program holds after its calls.
use os_study_code.Base.{ℕ, ◌≡◌, Bool, false, ◌&&◌, List, [], ◌∷◌, arith, ◌==◌, if◌then◌else◌}
use os_study_code.Base.Int.{ℤ, pos, pos_part, neg_part}
use os_study_code.Sys.{Call, socket, accept, close, alloc, free}

pub data Resource : Type 0 where
  fd : ℕ → Resource
  memory : ℤ → Resource

abbrev pub same : Resource → Resource → Bool
same (fd a) (fd b) = a == b
same (memory p) (memory q) = pos_part p == pos_part q && neg_part p == neg_part q
same r q = false

-- Gives back the latest resource that is the same.
abbrev pub give_back : Resource → List Resource → List Resource
give_back r [] = []
give_back r (q ∷ qs) = if same r q then qs else q ∷ give_back r qs

abbrev pub is_null : ℤ → Bool
is_null p = pos_part p == 0 && neg_part p == 0

abbrev pub after : Call → ℤ → List Resource → List Resource
after socket (pos n) qs = fd n ∷ qs
after (accept a) (pos n) qs = fd n ∷ qs
after (close n) r qs = give_back (fd n) qs
after (alloc n) p qs = if is_null p then qs else memory p ∷ qs
after (free p) r qs = if is_null p then qs else give_back (memory p) qs
after c r qs = qs

abbrev pub held : List (Call × ℤ) → List Resource
held [] = []
held ((c, r) ∷ cs) = after c r (held cs)

pub close_top : (n : ℕ) (r : ℤ) (qs : List Resource) → after (close n) r (fd n ∷ qs) ≡ qs
close_top n r qs = ground arith

pub free_top :
    (p r : ℤ) (qs : List Resource) → is_null p ≡ false → after (free p) r (memory p ∷ qs) ≡ qs
free_top p r qs given = ground arith
