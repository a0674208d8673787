-- ===== src/Base/Text.antt =====
-- Texts as lists of bytes.
use Prim.Native.Char.{code}
use Prim.Native.String.{String}
use os_study_code.Base.{ℕ, ◌+◌, ◌*◌, ◌/◌, ◌%◌, ◌^◌, ◌<◌, ◌≡◌, List, [], ◌∷◌, ◌++◌, arith}

-- The bytes of an ASCII text, without the NUL that ends it in C.
abbrev pub codes : String → List ℕ
codes String.[] = []
codes (String.◌∷◌ c s) = code c ∷ codes s

-- The four bytes in memory of a 32-bit number that `htonl` has put in network order.
abbrev pub htonl : ℕ → List ℕ
htonl n = n / 2 ^ 24 % 256 ∷ n / 2 ^ 16 % 256 ∷ n / 2 ^ 8 % 256 ∷ n % 256 ∷ []

-- `ntohl` of the number that stands in the first four of the bytes.
abbrev pub ntohl : List ℕ → ℕ
ntohl (a ∷ b ∷ c ∷ d ∷ bs) = (((a * 2 ^ 8 + b) * 2 ^ 8 + c) * 2 ^ 8 + d) % 2 ^ 32
ntohl bs = 0

pub ntohl-htonl : (n : ℕ) (bs : List ℕ) → n < 2 ^ 32 → ntohl (htonl n ++ bs) ≡ n
ntohl-htonl n bs lt = omega arith

pub ntohl-lt : (bs : List ℕ) → ntohl bs < 2 ^ 32
ntohl-lt (a ∷ b ∷ c ∷ d ∷ bs) = omega arith
ntohl-lt [] = omega arith
ntohl-lt (a ∷ []) = omega arith
ntohl-lt (a ∷ b ∷ []) = omega arith
ntohl-lt (a ∷ b ∷ c ∷ []) = omega arith
