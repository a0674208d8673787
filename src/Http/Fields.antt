-- ===== src/Http/Fields.antt =====
-- What the parser leaves in a connection, whatever the request.
use mathlib.Core.Option
use os_study_code.Base.{
  ℕ, ◌<◌, ◌≡◌, refl, ◌≢◌, Bool, Option, none, some, List, [], ◌∷◌, length, ltb, drop, arith,
  Bool-cases, Option-cases, inl, inr,
}
use os_study_code.Base.Text.{codes}
use os_study_code.Http.{
  Page, welcome, commit, ConnectStat, stored, field, blank_line, with_age, read_form, with_page,
  parse,
}
use os_study_code.Http.Text.{starts_nocase, strstr, skip, run_of, is_alnum, is_digit, is_slash}

-- The strings fit into their arrays.
pub record Short (stat : ConnectStat) : Type 0 where
  pub name : length stat.name < 64
  pub age : length stat.age < 64

pub record Same (stat stat' : ConnectStat) : Type 0 where
  pub fd : stat'.fd ≡ stat.fd
  pub address : stat'.address ≡ stat.address

abbrev Taken : Option (List ℕ) → Type 0
Taken none = Unit
Taken (some value) = length value < 64

abbrev Found : Option (List ℕ × List ℕ) → Type 0
Found none = Unit
Found (some (rest, value)) = length value < 64

abbrev Filled : ConnectStat → Option ConnectStat → Type 0
Filled stat none = Unit
Filled stat (some stat') = Short stat' × Same stat stat'

abbrev pub Parsed : ConnectStat → Option ConnectStat → Type 0
Parsed stat none = Unit
Parsed stat (some stat') = Short stat' × Same stat stat' × (stat'.handler ≢ none)

stored-Taken : (old new : List ℕ) → length old < 64 → Taken (stored old new)
stored-Taken old [] lt = lt
stored-Taken old (x ∷ xs) lt = elim (Bool-cases (ltb (length (x ∷ xs)) 64)) [
  | inl fits ↦ rw fits (ground arith)
  | inr long ↦ rw long tt
]

map-Found :
    (rest : List ℕ) (o : Option (List ℕ)) → Taken o → Found (Option.map (λ value. (rest, value)) o)
map-Found rest none h = tt
map-Found rest (some value) h = h

field-Found :
    (kind : ℕ → Bool) (pattern body old : List ℕ)
    → length old < 64
    → Found (field kind pattern body old)
field-Found kind pattern body old lt = elim (Option-cases (strstr body pattern)) [
  | inl missing ↦ rw (missing, field) lt
  | inr (at, found) ↦
      let rest = drop (length pattern) at in
      rw (found, field)
        (map-Found rest (stored old (run_of kind rest)) (stored-Taken old (run_of kind rest) lt))
]

map-Filled :
    (stat : ConnectStat) (name : List ℕ) (o : Option (List ℕ × List ℕ))
    → length name < 64
    → Found o
    → Filled stat (Option.map (λ (end, age). record stat { name = name; age = age }) o)
map-Filled stat name none lt h = tt
map-Filled stat name (some (end, age)) lt h =
    (record { name = lt; age = h }, record { fd = refl; address = refl })

bind-Filled :
    (stat : ConnectStat) (o : Option (List ℕ × List ℕ))
    → Short stat
    → Found o
    → Filled stat (Option.bind o (λ (rest, name). with_age stat name rest))
unfolding Option.bind
bind-Filled stat none short h = tt
bind-Filled stat (some (rest, name)) short h =
    map-Filled stat name (field is_digit (codes "age=") rest stat.age) h
      (field-Found is_digit (codes "age=") rest stat.age short.age)

read_form-Filled :
    (text : List ℕ) (stat : ConnectStat) → Short stat → Filled stat (read_form text stat)
unfolding read_form
read_form-Filled text stat short = elim (Option-cases (strstr text blank_line)) [
  | inl missing ↦ rw (missing, read_form) tt
  | inr (body, found) ↦
      rw (found, read_form)
        (bind-Filled stat (field is_alnum (codes "name=") body stat.name) short
          (field-Found is_alnum (codes "name=") body stat.name short.name))
]

with_page-Parsed :
    (page : Page) (stat : ConnectStat) → Short stat → Parsed stat (some (with_page page stat))
with_page-Parsed page stat short =
    (record { name = short.name; age = short.age }, record { fd = refl; address = refl }, λ e. cc)

map-Parsed :
    (stat : ConnectStat) (o : Option ConnectStat)
    → Filled stat o
    → Parsed stat (Option.map (with_page commit) o)
map-Parsed stat none h = tt
map-Parsed stat (some stat') (short, same) = (
  record { name = short.name; age = short.age },
  record { fd = same.fd; address = same.address },
  λ e. cc,
)

pub parse-Parsed : (text : List ℕ) (stat : ConnectStat) → Short stat → Parsed stat (parse text stat)
unfolding parse
parse-Parsed text stat short = elim (Bool-cases (starts_nocase text (codes "GET"))) [
  | inl get ↦ rw get (with_page-Parsed welcome stat short)
  | inr other ↦ rw other (elim (Bool-cases (starts_nocase text (codes "Post"))) [
    | inl post ↦
        rw post (elim (Bool-cases (starts_nocase (skip is_slash (drop 4 text)) (codes "commit"))) [
          | inl form ↦
              rw form (map-Parsed stat (read_form text stat) (read_form-Filled text stat short))
          | inr plain ↦ rw plain (with_page-Parsed welcome stat short)
        ])
    | inr strange ↦ rw strange (with_page-Parsed welcome stat short)
  ])
]
