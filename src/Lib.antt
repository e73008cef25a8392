-- ===== src/Lib.antt =====
-- A chat server and its client, in C.
--
-- The server accepts clients on a socket. Each client answers a challenge with the password of the
-- server, and is then asked for a name that no other client has. From then on a thread of its own
-- reads its lines and broadcasts what they say to all clients, which are kept in a doubly linked list
-- sorted by name. The client program answers the two challenges, prints what the server sends, and
-- sends the lines of its user.
--
-- The files, the code that each is about, and how the code's state and operations appear:
--
--   Base: the library's names that all files use, Boolean tests on numbers, and lists.
--   Libc: what the code uses of the C library: strings as lists of bytes, `strcmp`, `strncasecmp`,
--     `strtok_r`, `%d`, and `fprintf` of a format with no arguments.
--   LineList: lineList.c and lineList.h. A stream is the list of the bytes to come.
--   Commands: commands.c and commands.h, with the tables of command words and of their arities.
--   ClientThread: clientThread.c and clientThread.h.
--   World: the memory of the server (nodes and clients by address, the `ClientList` struct, what went
--     to standard output) and a monad of operations on it, in which a read of memory that holds
--     nothing, or of `NULL`, is a fault.
--   ClientList: clientList.c and clientList.h. Each loop over the list has as many rounds as there
--     can be nodes.
--   ServerUtils: serverUtils.c, `authenticate_client` and `name_negotiate`, and the operations of
--     clientThread.c on the shared memory.
--   Handlers: serverUtils.c, `handle_cmd` and the table `handlers`.
--   ServerThreads: serverUtils.c, `spawn_client_thread`, `client_thread_handler` and the report of
--     `sighup_stats_handler`.
--   Session: the invariant of the server's memory, and the states that calls of the threads
--     reach, in any order.
--   ServerMain: server.c, `main`, `setup_server` and `open_listen`.
--   ClientData: clientData.c and clientData.h, and the exit codes of errors.h.
--   ClientUtils: clientUtils.c, both protocols, the handlers, and `send_user_msg`.
--   Errors: errors.c.
--   ClientProcess: clientUtils.c, `server_comms_handler`, `user_input_handler`, `start_client` and
--     `end_client`, and the loop of `main` in client.c. The two threads and `main` take steps in any
--     order over the `ClientData` that they share; a step is one call of another function, or one test of
--     a loop. `end_client` holds the lock while it joins the threads, and a call that waits for the lock
--     then does not return.
--   ClientMain: client.c, `main` and `connect_to_server`.
--   Handshake: the two sides of authentication, each given what the other sends, for a server with a
--     password and for one with none.
--   Negotiation: the two sides of `name_negotiate`, each given what the other sends.
--   Tests: examples.
--
-- The calls of the system (`fopen`, `getaddrinfo`, `connect`, `bind`, `getsockname`) are arguments of the
-- two programs, and what `select` and `getsockopt` report is a choice of each step and a list.
--
-- The fuel: a loop that reads lines gets one round more than the stream has bytes, since each round
-- but the last reads at least one byte; a loop over the list gets one round more than the number of
-- addresses that have been given out.
--
-- Bytes are numbers below 256, and a `char` is signed. Lengths and counts are natural numbers: that an
-- `int` overflows at 2^31 lines or commands is not modelled, but the buffers that are too small for
-- large counts are.
--
-- Not modelled: the locks of the server and how its threads interleave within a function (each call of
-- `spawn_client_thread`, each round of a client's thread, and its end is one step), signals and how they
-- are masked (`suppress_sigpipe`, `toggle_sighup`), the delays, and functions that only free memory,
-- other than those of the list of clients.
pub mod Base
pub mod Libc
pub mod LineList
pub mod Commands
pub mod ClientThread
pub mod World
pub mod ClientList
pub mod ServerUtils
pub mod Handlers
pub mod ServerThreads
pub mod Session
pub mod ServerMain
pub mod ClientData
pub mod ClientUtils
pub mod Errors
pub mod ClientProcess
pub mod ClientMain
pub mod Handshake
pub mod Negotiation
pub mod Tests
