-- ===== src/Startup/Tests.antt =====
-- The start of a server at a concrete state.
use os_study_code.Base.{none, []}
use os_study_code.Base.Int.{pos}
use os_study_code.Sys.{Sys}
use os_study_code.Startup.{start_server}
use os_study_code.Startup.Listening.{Started, start_server-Started}

-- Every call returns 3.
abbrev fresh : Sys
fresh = record { results = λ n. pos 3; chunks = λ n. none; tick = 0; stream = []; calls = [] }

start_server-Started_example : Started fresh (start_server fresh)
start_server-Started_example = start_server-Started fresh
