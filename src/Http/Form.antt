-- ===== src/Http/Form.antt =====
-- The parser reads back a form, and the inputs on which it leaves its buffers.
use mathlib.Core.Option
use os_study_code.Base.{
  ℕ, ◌≤◌, ◌<◌, ◌≡◌, refl, ap, Bool, true, false, none, some, List, [], ◌∷◌, ◌++◌, drop, length, ltb,
  ◌==◌, arith, inl, inr, ◌⊎◌,
}
use os_study_code.Base.Text.{codes}
use os_study_code.Http.{commit, ConnectStat, stored, field, blank_line, with_age, read_form, parse}
use os_study_code.Http.Text.{starts, strstr, run_of, is_alnum, is_digit}

-- Every character is of the kind.
abbrev pub All : (ℕ → Bool) → List ℕ → Type 0
All kind [] = Unit
All kind (c ∷ cs) = (kind c ≡ true) × All kind cs

-- A text that does not start with a character of the kind.
abbrev pub Stops : (ℕ → Bool) → List ℕ → Type 0
Stops kind [] = Unit
Stops kind (c ∷ cs) = kind c ≡ false

run_of-append :
    (kind : ℕ → Bool) (xs rest : List ℕ)
    → All kind xs
    → Stops kind rest
    → run_of kind (xs ++ rest) ≡ xs
run_of-append kind [] [] all stops = refl
run_of-append kind [] (c ∷ rest) all stops = rw stops refl
run_of-append kind (x ∷ xs) rest all stops =
    rw (all.0) (ap (λ l. x ∷ l) (run_of-append kind xs rest all.1 stops))

-- No occurrence of "age=" begins in a name that `&` follows.
starts-age :
    (name rest : List ℕ) → All is_alnum name → starts (name ++ (b'&' ∷ rest)) (codes "age=") ≡ false
starts-age [] rest all = refl
starts-age (a ∷ []) rest all = ground arith
starts-age (a ∷ b ∷ []) rest all = ground arith
starts-age (a ∷ b ∷ c ∷ []) rest all = ground arith
starts-age (a ∷ b ∷ c ∷ d ∷ name) rest all =
    let plain : (d == b'=') ≡ false = ground (arith, all.1.1.1.0) in ground (arith, plain)

strstr-age :
    (name rest : List ℕ)
    → All is_alnum name
    → strstr (name ++ (b'&' ∷ codes "age=" ++ rest)) (codes "age=") ≡ some (codes "age=" ++ rest)
unfolding strstr
strstr-age [] rest all = refl
strstr-age (x ∷ xs) rest all =
    let later : starts (x ∷ (xs ++ (b'&' ∷ codes "age=" ++ rest))) (codes "age=") ≡ false =
      starts-age (x ∷ xs) (codes "age=" ++ rest) all in
    rw (later, strstr) (strstr-age xs rest all.1)

stored-some : (old new : List ℕ) → 0 < length new → length new < 64 → stored old new ≡ some new
stored-some old [] lt le = absurd (omega arith)
stored-some old (x ∷ xs) lt le =
    let inside : ltb (length (x ∷ xs)) 64 ≡ true = ground arith in rw inside refl

-- The body of a request that submits the form.
abbrev pub form : (name age rest : List ℕ) → List ℕ
form name age rest =
    blank_line ++ (codes "name=" ++ (name ++ (b'&' ∷ codes "age=" ++ (age ++ rest))))

strstr-name :
    (name age rest : List ℕ)
    → strstr (form name age rest) (codes "name=")
      ≡ some (codes "name=" ++ (name ++ (b'&' ∷ codes "age=" ++ (age ++ rest))))
unfolding strstr
strstr-name name age rest = refl

field-age :
    (old age rest : List ℕ) (body : List ℕ)
    → strstr body (codes "age=") ≡ some (codes "age=" ++ (age ++ rest))
    → All is_digit age
    → 0 < length age
    → length age < 64
    → Stops is_digit rest
    → field is_digit (codes "age=") body old ≡ some (age ++ rest, age)
field-age old age rest body at all lt le stops =
    rw (at, field)
      (rw (run_of-append is_digit age rest all stops) (rw (stored-some old age lt le) refl))

-- The fields of a form: what the server can take.
pub record Fields (name age : List ℕ) : Type 0 where
  pub plain_name : All is_alnum name
  pub some_name : 0 < length name
  pub short_name : length name < 64
  pub plain_age : All is_digit age
  pub some_age : 0 < length age
  pub short_age : length age < 64

field-name :
    (old name age rest : List ℕ)
    → All is_alnum name
    → 0 < length name
    → length name < 64
    → field is_alnum (codes "name=") (form name age rest) old
      ≡ some (name ++ (b'&' ∷ codes "age=" ++ (age ++ rest)), name)
field-name old name age rest all lt le =
    let named : run_of is_alnum (name ++ (b'&' ∷ codes "age=" ++ (age ++ rest))) ≡ name =
      run_of-append is_alnum name (b'&' ∷ codes "age=" ++ (age ++ rest)) all refl in
    rw (strstr-name name age rest, field) (rw named (rw (stored-some old name lt le) refl))

with_age-field :
    (stat : ConnectStat) (name age body rest : List ℕ)
    → field is_digit (codes "age=") body stat.age ≡ some (rest, age)
    → with_age stat name body ≡ some (record stat { name = name; age = age })
with_age-field stat name age body rest e = rw (e, with_age) refl

read_form-form :
    (text name age rest : List ℕ) (stat : ConnectStat)
    → Fields name age
    → Stops is_digit rest
    → strstr text blank_line ≡ some (form name age rest)
    → read_form text stat ≡ some (record stat { name = name; age = age })
unfolding read_form
read_form-form text name age rest stat f stops at =
    let body = name ++ (b'&' ∷ codes "age=" ++ (age ++ rest)) in
    rw (at, read_form)
      (rw (field-name stat.name name age rest f.plain_name f.some_name f.short_name, Option.bind)
        (with_age-field stat name age body (age ++ rest) (
          field-age stat.age age rest body (strstr-age name (age ++ rest) f.plain_name) f.plain_age
            f.some_age f.short_age stops)))

-- The request line for the form.
abbrev pub post_commit : List ℕ
post_commit = codes "POST /commit"

pub parse-form :
    (headers name age rest : List ℕ) (stat : ConnectStat)
    → Fields name age
    → Stops is_digit rest
    → strstr (post_commit ++ headers) blank_line ≡ some (form name age rest)
    → parse (post_commit ++ headers) stat
      ≡ some (record stat { name = name; age = age; handler = some commit })
unfolding parse
parse-form headers name age rest stat f stops at =
    rw (read_form-form (post_commit ++ headers) name age rest stat f stops at) refl

-- A request that the parser reads outside a buffer: no blank line, or a name of 64 characters.
abbrev pub Overruns : List ℕ → Type 0
Overruns text =
    (strstr text blank_line ≡ none)
    ⊎ ((body : List ℕ) × (at : List ℕ) × (strstr text blank_line ≡ some body)
        × (strstr body (codes "name=") ≡ some at)
        × (64 ≤ length (run_of is_alnum (drop 5 at))))

stored-none : (old new : List ℕ) → 64 ≤ length new → stored old new ≡ none
stored-none old [] le = absurd (omega arith)
stored-none old (x ∷ xs) le =
    let outside : ltb (length (x ∷ xs)) 64 ≡ false = ground arith in rw outside refl

read_form-none : (text : List ℕ) (stat : ConnectStat) → Overruns text → read_form text stat ≡ none
unfolding read_form
read_form-none text stat (inl missing) = rw (missing, read_form) refl
read_form-none text stat (inr (body, at, found, named, long)) =
    rw (found, read_form)
      (rw (named, field) (rw (stored-none stat.name (run_of is_alnum (drop 5 at)) long) refl))

pub parse-none :
    (headers : List ℕ) (stat : ConnectStat)
    → Overruns (post_commit ++ headers)
    → parse (post_commit ++ headers) stat ≡ none
unfolding parse
parse-none headers stat bad = rw (read_form-none (post_commit ++ headers) stat bad) refl
