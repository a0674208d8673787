-- ===== src/Http/Text.antt =====
-- The functions of <string.h> that the parser calls, and its loops.
use os_study_code.Base.{
  ℕ, zero, suc, ◌+◌, ◌/◌, ◌%◌, ◌≤◌, Bool, true, false, ◌&&◌, ◌||◌, Option, none, some, List, [],
  ◌∷◌, ◌++◌, length, length-append, ltb, leb, ◌==◌, if◌then◌else◌, arith,
}

abbrev pub until_nul : List ℕ → List ℕ
until_nul [] = []
until_nul (b ∷ bs) = if b == 0 then [] else b ∷ until_nul bs

abbrev pub lower : ℕ → ℕ
lower c = if leb b'A' c && leb c b'Z' then c + 32 else c

-- `strncasecmp(text, prefix, strlen(prefix)) == 0`
abbrev pub starts_nocase : List ℕ → List ℕ → Bool
starts_nocase text [] = true
starts_nocase [] (p ∷ ps) = false
starts_nocase (c ∷ cs) (p ∷ ps) = if lower c == lower p then starts_nocase cs ps else false

abbrev pub starts : List ℕ → List ℕ → Bool
starts text [] = true
starts [] (p ∷ ps) = false
starts (c ∷ cs) (p ∷ ps) = if c == p then starts cs ps else false

-- The text from the first occurrence of `pattern` on, which is not empty.
unfoldable pub strstr : List ℕ → List ℕ → Option (List ℕ)
strstr [] pattern = none
strstr (c ∷ cs) pattern = if starts (c ∷ cs) pattern then some (c ∷ cs) else strstr cs pattern

abbrev pub is_slash : ℕ → Bool
is_slash c = c == b' ' || c == b'/'

abbrev pub is_digit : ℕ → Bool
is_digit c = leb b'0' c && leb c b'9'

abbrev pub is_alnum : ℕ → Bool
is_alnum c = leb b'a' c && leb c b'z' || leb b'A' c && leb c b'Z' || is_digit c

-- The text after a loop that steps over the characters of a kind, and what the loop stepped over.
abbrev pub skip : (ℕ → Bool) → List ℕ → List ℕ
skip kind [] = []
skip kind (c ∷ cs) = if kind c then skip kind cs else c ∷ cs

abbrev pub run_of : (ℕ → Bool) → List ℕ → List ℕ
run_of kind [] = []
run_of kind (c ∷ cs) = if kind c then c ∷ run_of kind cs else []

-- `%d` of a number with at most `n` digits.
abbrev pub digits : ℕ → ℕ → List ℕ
digits zero n = []
digits (suc f) n =
    let front = digits f (n / 10) in
    if ltb n 10 then (n + 48) ∷ [] else front ++ ((n % 10 + 48) ∷ [])

unfoldable pub decimal : ℕ → List ℕ
decimal = digits 10

length-digits : (f n : ℕ) → length (digits f n) ≤ f
length-digits zero n = omega arith
length-digits (suc f) n =
    ground (arith, length-digits f (n / 10), length-append (digits f (n / 10)) ((n % 10 + 48) ∷ []))

pub length-decimal : (n : ℕ) → length (decimal n) ≤ 10
unfolding decimal
length-decimal n = length-digits 10 n
