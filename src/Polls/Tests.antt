-- ===== src/Polls/Tests.antt =====
-- A client connects to the server at socket 3 and sends a byte.
use os_study_code.Base.{ℕ, ◌≡◌, refl, some, none, ◌==◌, if◌then◌else◌}
use mathlib.Core.Option
use os_study_code.Base.Int.{pos}
use os_study_code.Polls.{Answer, Polls, PollFd, watch, empty, add_client, round, scan, visit}
use os_study_code.Polls.Table.{Table}

abbrev listening : Polls
listening = watch 3 empty

-- The listening socket is ready, and accept returns 4.
abbrev knock : ℕ → ℕ
knock i = if i == 3 then 1 else 0

abbrev answers : ℕ → Answer
answers i = record { accepted = pos 4; received = none }

-- After the round the table has the client, and waits for it.
abbrev client : PollFd
client = record { fd = 4; events = 1; revents = 0 }

with_client : Option.map (λ t. t.fds 4) (round 3 knock answers listening) ≡ some client
unfolding round scan visit add_client
with_client = refl
