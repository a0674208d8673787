-- ===== src/Startup.antt =====
-- How the servers open the socket that they listen on.
--
-- `start_server` is the start of `main` in echo_server/TCPfenbao/echo_server.c, and in
-- echo_server/echo_server.c word for word. `startup` is the function of
-- epoll/epoll_framework/main.c, of epoll/epollserver.c and of libevent/epoll_framework/main.c.
pub mod Listening
mod Tests
use os_study_code.Base.{ℕ}
use os_study_code.Base.Int.{ℤ, pos, negsuc}
use os_study_code.Sys.{
  socket, setsockopt, bind, listen, close, M, ◌>>=◌, ◌>>◌, return, exit, invoke,
}

abbrev pub fail_with : ℕ → M ℤ
fail_with sock = do invoke (close sock); return (pos 1)

abbrev pub listen_on : ℕ → ℤ → M ℤ
listen_on sock (negsuc n) = fail_with sock
listen_on sock (pos n) = return (pos 0)

abbrev pub bind_on : ℕ → ℤ → M ℤ
bind_on sock (negsuc n) = fail_with sock
bind_on sock (pos n) = do r ← invoke (listen sock 128); listen_on sock r

abbrev pub bind_socket : ℤ → M ℤ
bind_socket (negsuc n) = return (pos 1)
bind_socket (pos sock) = do r ← invoke (bind sock); bind_on sock r

-- 1 is what `main` returns on an error, and 0 stands for the loop.
unfoldable pub start_server : M ℤ
start_server = do sock ← invoke socket; bind_socket sock

abbrev pub startup_listen : ℕ → ℤ → M ℕ
startup_listen sock (negsuc n) = exit 4
startup_listen sock (pos n) = return sock

abbrev pub startup_bind : ℕ → ℤ → M ℕ
startup_bind sock (negsuc n) = exit 3
startup_bind sock (pos n) = do r ← invoke (listen sock 5); startup_listen sock r

abbrev pub startup_socket : ℤ → M ℕ
startup_socket (negsuc n) = exit 2
startup_socket (pos sock) = do invoke (setsockopt sock); r ← invoke (bind sock); startup_bind sock r

unfoldable pub startup : M ℕ
startup = do sock ← invoke socket; startup_socket sock
