-- ===== src/Lib.antt =====
-- Verification of the programs of this repository, studies of operating-system and network
-- programming in C.
--
-- Parts and files:
-- mem_pool/: a region allocator after nginx. MemPool.antt has its data and loops, MemPool/Ops.antt
--   the functions of mem_pool_palloc.c (ngx_palloc is palloc, and so on). MemPool/Layout.antt says
--   where blocks lie and what is in use, MemPool/Owner.antt which regions the pool owns, and
--   MemPool/Valid.antt has the invariant and the assumptions on malloc. Blocks, Extend, Small,
--   LargeAlloc, Pfree, Lifetime and Teardown prove the functions one by one; Client and Runs put them
--   together for a client. MemPool/Zero.antt is about the allocations that clear their memory.
-- threadpool/: a pool of worker threads. ThreadPool.antt has the linked queue, thread_task_post and
--   the steps of thread_pool_cycle; ThreadPool/Queue.antt relates the pointers to lists, Post and
--   Workers prove the steps, Awake, Turns and Comes are about signals and about which worker has which
--   task, Reachable is about the interleavings.
--   ThreadPool/Destroy.antt is thread_pool_destroy with the workers; Tally, Stages and Destroyed have what
--   holds meanwhile, Shutdown and Termination how it ends.
-- threadpool/thread_mutex.c, thread_cond.c: Threads.antt has the wrappers and thread_pool_init on the
--   system calls; Threads/Opening.antt shows how the pool opens and what a failure leaves.
-- epoll/epoll_framework/: event handlers on descriptors over epoll. Comm.antt has the tables of comm.c
--   and comm_epoll.c and their functions; Comm/Interest.antt says what the kernel was told and when the
--   state is consistent with it, Updates proves the functions that change the tables, Handlers the calls
--   of handlers, Timeouts the timeouts. Comm/Calls.antt says which handlers a round calls.
--   Comm/Select.antt is comm_select with its clock, Comm/Clock.antt the
--   loop over it. libevent/epoll_framework holds copies of the same files.
-- epoll/epoll_framework/main.c: an echo server on them. EpollEcho.antt has its handlers,
--   EpollEcho/Safety.antt says whose memory they use, Memory and Handlers show that they keep to it,
--   Runs follows the server from its start, Reply says what a client gets.
-- thread/mutex.c: two threads that sell tickets. Tickets.antt has their steps, Tickets/Sales.antt the
--   interleavings.
-- semaphore/sems.c: processes that share a critical section by a semaphore. Critical.antt has their
--   steps, Critical/Exclusion.antt shows that they exclude each other, Returned that no unit is lost.
-- thread/threadsem.c: lines through a buffer and a semaphore. HandOver.antt has the steps,
--   HandOver/Progress.antt shows that they do not get stuck.
-- Sys.antt: the system calls that the programs below make, with results and input as parameters, and
--   every call recorded; Sys/Held.antt says which descriptors and memory a program holds after its
--   calls, Reads and Runs are about read(2) and about whole runs.
-- Startup.antt: how the servers open their sockets (echo_server/, epoll/, libevent/epoll_framework/).
-- echo_server/TCPfenbao/: framed messages. Frame.antt has both programs; Frame/Release.antt and
--   Frame/Client.antt show what they give back, Frame/RoundTrip.antt that a packet arrives.
-- echo_server/: Echo.antt has the echo server and client, Echo/Dialogue.antt what they say to each
--   other, Echo/Release.antt what they give back.
-- epoll/epollserver.c: an HTTP server on epoll. Http.antt has the parser and the handlers of a
--   connection, Http/Text.antt the string functions, Form and Requests the round trip of the form and
--   the overruns, Fields what the parser keeps, Events the handling of an event.
-- thread/inputm.c: a thread that reports typed lines. Typing.antt has its steps, Typing/Taken.antt
--   shows which lines the thread takes.
-- mutipleIO/polls.c: a server over poll. Polls.antt has its table and rounds, Polls/Table.antt and
--   Polls/Rounds.antt show that the table follows the sockets, and what clients get.
-- mutipleIO/mutipls.c and mutiplc.c: a server over select, and a client. Selects.antt has its set and
--   rounds, Selects/Rounds.antt shows what clients get, Selects/Client.antt is the client.
-- libevent/server.c and client.c: EventEcho.antt has their callbacks, EventEcho/Lines.antt follows a
--   line there and back.
-- Base.antt, Base/Text.antt and Base/Int.antt have the shared names. Tests modules run the code at
--   concrete inputs.
--
-- Bounds and fuel: addresses and sizes are 64-bit words with their wrap-around written out. Most loops
-- are recursions on the lists that they walk. The scan of polls.c has fuel, MAX_FD + 1 rounds, which is
-- enough since the table has MAX_FD entries; the search of ngx_palloc_large
-- stops after five entries, as in the code; a decimal number of an int has at most ten digits.
-- The counters failed and waiting are not wrapped.
--
-- Not modelled: the contents of memory but for what ngx_pcalloc clears, output and logging, failures
-- of the mutex in a worker, the rounding of the doubles in comm_select, the errors of epoll_ctl (which
-- the code only logs), the set-up of libevent, and the demos, which only call
-- the system. malloc, the handlers and the result of epoll_wait are parameters, with their
-- documented behaviour as hypotheses.
pub mod Base
pub mod Comm
pub mod Echo
pub mod Frame
pub mod HandOver
pub mod Http
pub mod MemPool
pub mod Startup
pub mod Sys
pub mod ThreadPool
pub mod Threads
pub mod EpollEcho
pub mod Critical
pub mod EventEcho
pub mod Polls
pub mod Selects
pub mod Typing
pub mod Tickets
