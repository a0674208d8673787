-- ===== src/Http.antt =====
-- epoll/epollserver.c: a demonstration of an HTTP server on epoll.
--
-- A request is the bytes of `buf` before the NUL, and a position in it is the rest of the text from
-- there on. `strstr` of a null pointer, a store outside `name` or `age`, and a call of a handler that
-- is NULL are faults. `name` and `age` are the strings in the arrays of that name. The texts of the
-- two pages are parameters, since they are data. `stat_init` has no `return` statement; the model
-- takes the address that `malloc` gave as its result.
pub mod Text
pub mod Form
pub mod Requests
pub mod Fields
pub mod Events
mod Tests
use mathlib.Core.Option
use os_study_code.Base.{
  ℕ, zero, suc, ◌+◌, ◌-◌, ◌/◌, ◌%◌, Bool, true, false, ◌&&◌, ◌||◌, not, Option, none, some, List,
  [], ◌∷◌, ◌++◌, length, take, drop, ltb, leb, ◌==◌, if◌then◌else◌,
}
use os_study_code.Base.Int.{ℤ, pos, negsuc}
use os_study_code.Base.Text.{codes}
use os_study_code.Sys.{
  fault, accept, write, close, alloc, free, print, epoll_ctl, M, ◌>>=◌, ◌>>◌, return, within,
  invoke, recv_into,
}
use os_study_code.Sys.Held.{is_null}
use os_study_code.Http.Text.{
  until_nul, starts_nocase, strstr, skip, run_of, is_alnum, is_digit, decimal, is_slash,
}

pub data Page : Type 0 where
  welcome commit : Page

pub record ConnectStat : Type 0 where
  pub address : ℤ
  pub fd : ℕ
  pub name : List ℕ
  pub age : List ℕ
  pub events : ℕ
  pub status : ℕ
  pub handler : Option Page

-- `memcpy` to an array of 64 bytes, with the NUL behind; nothing for a length of 0.
abbrev pub stored : List ℕ → List ℕ → Option (List ℕ)
stored old [] = some old
stored old (x ∷ xs) = if ltb (length (x ∷ xs)) 64 then some (x ∷ xs) else none

-- The search for `pattern` from a position on: where the search goes on, and the array.
abbrev pub field : (kind : ℕ → Bool) → List ℕ → List ℕ → List ℕ → Option (List ℕ × List ℕ)
field kind pattern body old = elim (strstr body pattern) [
  | none ↦ some (body, old)
  | some at ↦
      let rest = drop (length pattern) at in
      Option.map (λ value. (rest, value)) (stored old (run_of kind rest))
]

abbrev pub blank_line : List ℕ
blank_line = 13 ∷ 10 ∷ 13 ∷ 10 ∷ []

abbrev pub with_age : ConnectStat → List ℕ → List ℕ → Option ConnectStat
with_age stat name rest =
    Option.map (λ (end, age). record stat { name = name; age = age })
      (field is_digit (codes "age=") rest stat.age)

unfoldable pub read_form : List ℕ → ConnectStat → Option ConnectStat
unfolding Option.bind
read_form text stat = elim (strstr text blank_line) [
  | none ↦ none
  | some body ↦
      Option.bind (field is_alnum (codes "name=") body stat.name)
        (λ (rest, name). with_age stat name rest)
]

abbrev pub with_page : Page → ConnectStat → ConnectStat
with_page page stat = record stat { handler = some page }

-- The handler that the request selects, with the fields of a form.
unfoldable pub parse : List ℕ → ConnectStat → Option ConnectStat
unfolding read_form
parse text stat =
    if starts_nocase text (codes "GET")
    then some (with_page welcome stat)
    else if starts_nocase text (codes "Post")
    then if starts_nocase (skip is_slash (drop 4 text)) (codes "commit")
      then Option.map (with_page commit) (read_form text stat)
      else some (with_page welcome stat)
    else some (with_page welcome stat)

-- EPOLLIN is 1, EPOLLOUT 4, EPOLL_CTL_ADD 1, EPOLL_CTL_DEL 2 and EPOLL_CTL_MOD 3.
unfoldable pub rearm : (events : ℕ) → ConnectStat → M (Option ConnectStat)
rearm events stat = do
  invoke (epoll_ctl 3 stat.fd events)
  return (some (record stat { events = events }))

abbrev pub parsed : Option ConnectStat → M (Option ConnectStat)
parsed none s = (fault, s)
parsed (some stat) s = rearm 4 stat s

-- `none` as the result is a connection that is closed, with its memory freed.
unfoldable pub request_read : ConnectStat → Option (List ℕ) → M (Option ConnectStat)
request_read stat none = return (some stat)
request_read stat (some []) = do
  invoke (epoll_ctl 2 stat.fd 0)
  invoke (close stat.fd)
  invoke (free stat.address)
  return none
request_read stat (some (b ∷ bs)) = parsed (parse (until_nul (b ∷ bs)) stat)

unfoldable pub do_http_request : ConnectStat → M (Option ConnectStat)
unfolding request_read rearm
do_http_request stat = do bytes ← recv_into stat.fd 4095 4096; request_read stat bytes

abbrev pub connected : (new_fd : ℕ) → ℤ → M (Option ConnectStat)
connected new_fd p = if is_null p then (λ s. (fault, s)) else (do
  invoke (epoll_ctl 1 new_fd 1)
  return (
      some (record {
        address = p;
        fd = new_fd;
        name = [];
        age = [];
        events = 1;
        status = 0;
        handler = none;
      })))

abbrev pub sizeof_stat : ℕ
sizeof_stat = 160

-- `stat_init` and what follows it: a null pointer that it returns is dereferenced.
unfoldable pub connect_handle : (new_fd : ℕ) → M (Option ConnectStat)
connect_handle new_fd = do p ← invoke (alloc sizeof_stat); connected new_fd p

abbrev pub main_header : List ℕ
main_header =
    codes "HTTP/1.0 200 OK"
    ++ (13 ∷ 10 ∷ codes "Server: czf Server"
        ++ (13 ∷ 10 ∷ codes "Content-Type: text/html"
            ++ (13 ∷ 10 ∷ codes "Connection: Open" ++ (13 ∷ 10 ∷ []))))

-- The line for a content whose length is `len`.
abbrev pub content_length : ℕ → List ℕ
content_length len = codes "Content-Length: " ++ (decimal len ++ blank_line)

-- `strcpy` and `strcat` into `sendbuffer[4096]`, with the NUL.
unfoldable pub send_page : (len : ℕ) → List ℕ → ConnectStat → M (Option ConnectStat)
unfolding rearm
send_page len content stat = do
  within (ltb (length (main_header ++ (content_length len ++ content))) 4096)
  invoke (write stat.fd (main_header ++ (content_length len ++ content)))
  rearm 1 stat

module _ (welcome_content commit_head commit_middle commit_tail : List ℕ) where
  -- `commit_content` with the two strings put in.
  abbrev pub commit_page : ConnectStat → List ℕ
  commit_page stat = commit_head ++ (stat.name ++ (commit_middle ++ (stat.age ++ commit_tail)))

  -- `snprintf` into `content[4096]` cuts the text, and its result is the whole length.
  abbrev pub respond : Option Page → ConnectStat → M (Option ConnectStat)
  respond none stat s = (fault, s)
  respond (some welcome) stat s = send_page (length welcome_content) welcome_content stat s
  respond (some commit) stat s =
      send_page (length (commit_page stat)) (take 4095 (commit_page stat)) stat s

  unfoldable pub do_http_respone : ConnectStat → M (Option ConnectStat)
  unfolding send_page
  do_http_respone stat = respond stat.handler stat

  -- The body of the loop of `main` over the events, for a connection that is not the listener.
  unfoldable pub handle_event : (revents : ℕ) → ConnectStat → M (Option ConnectStat)
  unfolding do_http_request do_http_respone
  handle_event revents stat =
      if revents % 2 == 1
      then do_http_request stat
      else if revents / 4 % 2 == 1
      then do_http_respone stat
      else return (some stat)

abbrev pub accepted_client : ℤ → M (Option ConnectStat)
accepted_client (negsuc n) = return none
accepted_client (pos zero) = return none
accepted_client (pos (suc n)) = connect_handle (suc n)

-- The same for the listener.
unfoldable pub accept_event : (listen_sock : ℕ) → M (Option ConnectStat)
unfolding connect_handle
accept_event listen_sock = do new_fd ← invoke (accept listen_sock); accepted_client new_fd
