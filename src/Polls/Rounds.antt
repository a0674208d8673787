-- ===== src/Polls/Rounds.antt =====
-- A round of the server: it ends, keeps the table, and what it writes.
use mathlib.Core.Option
use os_study_code.Base.{ℕ, ◌<◌, ◌≡◌, ◌≢◌, false, Option, none, some, List, [], ◌∷◌}
use os_study_code.Base.Int.{ℤ, pos, negsuc}
use os_study_code.Polls.{Char, Polls, Answer, max_fd, has_in, has_out, round, open_server}
use os_study_code.Polls.Table.{Table}

abbrev pub InTable : ℤ → Type 0
InTable (pos n) = n < max_fd
InTable (negsuc n) = ⊥

-- Each byte that is known was read from another client. `none` is the byte before the first read of a
-- round: it is indeterminate, and may be any.
abbrev pub Foreign : List (ℕ × Option Char) → Type 0
Foreign [] = Unit
Foreign ((d, none) ∷ ws) = Foreign ws
Foreign ((d, some c) ∷ ws) = (c.from ≢ d) × Foreign ws

-- The state before the visit of entry `i`.
pub record Scanned (server i : ℕ) (s : Polls) : Type 0 where
  pub table : Table server s
  pub foreign : Foreign s.sent
  pub earlier : (c : Char) → s.ch ≡ some c → c.from < i

-- What poll(2) documents: no events but errors where none are asked for.
abbrev pub Documented : (ℕ → ℕ) → Polls → Type 0
Documented revents s =
    (i : ℕ) → (s.fds i).events ≡ 0 → (has_in (revents i) ≡ false) × (has_out (revents i) ≡ false)

-- The states between the rounds.
pub data Reach (server : ℕ) : Polls → Type 0 where
  opened : {s : Polls} → server < max_fd → open_server (pos server) ≡ some s → Reach server s
  later :
      {s t : Polls} (revents : ℕ → ℕ) (answers : ℕ → Answer)
      → Reach server s
      → Documented revents s
      → ((i : ℕ) → InTable (answers i).accepted)
      → round server revents answers s ≡ some t
      → Reach server t
