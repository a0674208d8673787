-- ===== src/Startup/Listening.antt =====
-- Where a server goes on, its socket is bound and listens.
use os_study_code.Base.{ℕ, ◌+◌, ◌≡◌, refl, ◌⊎◌, inl, inr, ◌∷◌}
use os_study_code.Base.Int.{ℤ, pos, negsuc}
use os_study_code.Sys.{Sys, Outcome, done, exited, fault, Call, invoke, log}
use os_study_code.Sys.Held.{fd, held, close_top}
use os_study_code.Sys.Runs.{made}
use os_study_code.Startup.{
  start_server, bind_socket, bind_on, listen_on, startup, startup_socket, startup_bind,
  startup_listen,
}

-- Either 1 with nothing left behind, or 0 with a socket for which no call has failed.
abbrev pub Started : Sys → Outcome ℤ × Sys → Type 0
Started s (done r, t) =
    ((r ≡ pos 1) × (held t.calls ≡ held s.calls))
    ⊎ ((sock b l : ℕ) × (r ≡ pos 0)
        × (held t.calls ≡ fd sock ∷ held s.calls)
        × (t.calls
            ≡ (Call.listen sock 128, pos l)
              ∷ (Call.bind sock, pos b)
              ∷ (Call.socket, pos sock)
              ∷ s.calls))
Started s (exited code, t) = ⊥
Started s (fault, t) = ⊥

-- Whatever the calls return, the start of the servers ends with 1 and holds no socket that it did
-- not hold before, or goes on with one new socket, on which bind and then listen have succeeded.
pub start_server-Started : (s : Sys) → Started s (start_server s)
unfolding start_server invoke
start_server-Started s = opened (s.results s.tick)
  where
    listens :
        (sock b : ℕ) (r : ℤ)
        → let t = log (Call.bind sock) (pos b) (log Call.socket (pos sock) s) in
          Started s (listen_on sock r (log (Call.listen sock 128) r t))
    listens sock b (negsuc n) = inl (refl, close_top sock (pos 0) (held s.calls))
    listens sock b (pos n) = inr (sock, b, n, refl, refl, refl)

    binds :
        (sock : ℕ) (r : ℤ)
        → Started s (bind_on sock r (log (Call.bind sock) r (log Call.socket (pos sock) s)))
    binds sock (negsuc n) = inl (refl, close_top sock (pos 0) (held s.calls))
    binds sock (pos n) = listens sock n (s.results (s.tick + 1 + 1))

    opened : (r : ℤ) → Started s (bind_socket r (log Call.socket r s))
    opened (negsuc n) = inl (refl, refl)
    opened (pos sock) = binds sock (s.results (s.tick + 1))

-- The exit code says which call has failed.
abbrev pub StartedUp : Sys → Outcome ℕ × Sys → Type 0
StartedUp s (done sock, t) =
    (held t.calls ≡ fd sock ∷ held s.calls)
    × (made t ≡ Call.listen sock 5 ∷ Call.bind sock ∷ Call.setsockopt sock ∷ Call.socket ∷ made s)
StartedUp s (exited code, t) =
    ((code ≡ 2) × (made t ≡ Call.socket ∷ made s))
    ⊎ ((sock : ℕ) × (((code ≡ 3)
            × (made t ≡ Call.bind sock ∷ Call.setsockopt sock ∷ Call.socket ∷ made s))
          ⊎ ((code ≡ 4)
              × (made t
                  ≡ Call.listen sock 5
                    ∷ Call.bind sock
                    ∷ Call.setsockopt sock
                    ∷ Call.socket
                    ∷ made s))))
StartedUp s (fault, t) = ⊥

pub startup-StartedUp : (s : Sys) → StartedUp s (startup s)
unfolding startup invoke
startup-StartedUp s = opened (s.results s.tick)
  where
    before : ℕ → ℤ → Sys
    before sock r =
        log (Call.bind sock) r
          (log (Call.setsockopt sock) (s.results (s.tick + 1)) (log Call.socket (pos sock) s))

    listens :
        (sock : ℕ) (b r : ℤ)
        → StartedUp s (startup_listen sock r (log (Call.listen sock 5) r (before sock b)))
    listens sock b (negsuc n) = inr (sock, inr (refl, refl))
    listens sock b (pos n) = (refl, refl)

    binds : (sock : ℕ) (r : ℤ) → StartedUp s (startup_bind sock r (before sock r))
    binds sock (negsuc n) = inr (sock, inl (refl, refl))
    binds sock (pos n) = listens sock (pos n) (s.results (s.tick + 1 + 1 + 1))

    opened : (r : ℤ) → StartedUp s (startup_socket r (log Call.socket r s))
    opened (negsuc n) = inl (refl, refl)
    opened (pos sock) = binds sock (s.results (s.tick + 1 + 1))
