-- ===== src/Lib.antt =====
-- The servers of this repository echo fixed-size messages over TCP, each with another way of waiting
-- for many connections: poll, epoll and io_uring. This library models their own logic and proves
-- what it does.
--
-- The parts, and how they interact:
-- - Prelude: arrays as lists, signed integers, and the outcome of a run of C code (Prelude.Run), with
--   the assertion macros of code/c/common/utils.h, which leave the process.
-- - Time: code/c/common/time_utils.c, function by function under the same names
--   (`timespec_rebalance` is `rebalance`). Sums are exact integers; a theorem says when they fit.
-- - Measurements: code/c/common/measurements.c, without the prefix `meas_`.
-- - Benchmark: code/c/server/server_benchmark.c, which records differences of Time in a container of
--   Measurements and writes them to a file, here the list of the pieces printed.
-- - Net: code/c/server/server_utils.c: sockets, the reading and echoing of one message.
-- - Pollfd: code/c/server/poll/pollfd_vector.c, the vector of the poll server.
-- - Poll: code/c/server/poll/main.c: the loop over the ready entries and its handlers, on Net and
--   Pollfd; Poll.Stop has `service_loop`, the clean-ups and `main`; Poll.Measured has the handlers and
--   the turns of the loop in the build with server-side benchmarking.
-- - Links: the nodes of the two doubly linked lists, in a heap that maps an address to a node;
--   Links.Chain has the lemmas on lists linked both ways.
-- - Epoll: code/c/server/epoll/main.c: the list of connections, which is linked by `prev` only and the event handlers, on Net and
--   Links; Epoll.Stop has the set-up, `service_loop`, the last clean-up and `main`; Epoll.Measured has
--   the handlers and the turns of the loop in the build with server-side benchmarking.
-- - Client: code/c/client/main.c, in request-response mode.
-- - Uring.Tracker and Uring.Ring: code/c/server/io_uring/io_uring_server_utils.c: the list of the
--   operations that are allocated, and the two rings that the program shares with the kernel.
-- - Uring.Setup: the same file: configuring, mapping and freeing the rings, and entering the kernel.
-- - Uring.Server: code/c/server/io_uring/main.c: the handlers of completions, on both.
-- - Uring.Loop: the same file's `service_loop` as a state machine: `turn` is one round of its body, and
--   a step is a turn of the program or what the kernel does in between, which takes SQEs
--   (Uring.Ring.Kernel), writes into buffers and posts CQEs (Uring.Ring.Completion), in any order.
--   `Alive` (Uring.Loop.Stored) and `IsServing` (Uring.Loop.Reach) say what the states have in common:
--   the rings, the tracker, and which operations are outstanding.
-- - Uring.Main: `main` and `service_loop` of the same file around that loop: from the first call to the
--   loop (`begin`), and from wherever a signal stops it to the end (`finish`).
-- - Uring.Measured: the handlers and the turn of the loop of the same file in the build with server-side
--   benchmarking, which measures into a Benchmark; Uring.Measured.Erased compares the handlers with
--   those of Uring.Server, and Uring.Measured.Turns the turns with those of Uring.Loop. What the loop
--   and the kernel do while an echo is under way is `Meanwhile` (Uring.Measured.Echoed).
-- - Tests: the theorems at concrete inputs.
--
-- State is passed explicitly: a function takes the state of its component (a vector, the rings, the
-- server) and returns it in a Run, which says whether the code returned, left the process, did what C
-- leaves undefined, or was out of fuel. What a system call or an allocation answers is an argument.
-- Addresses are numbers, and 0 is NULL. Words wrap as written (`% 2 ^ 32`, `% 2 ^ 64`).
--
-- Fuel: the clean-up loops of the epoll and the io_uring server run on it, and so does the loop of the
-- poll server over its entries. Their theorems give a bound: two rounds, one more than the clients,
-- and one more than the entries and the events; one more than the entries for the poll server's
-- clean-up. The loops around the waiting calls are over the list of what those calls answer, which
-- ends where the signal stops the server. The loop over waiting clients is over the list of the
-- system's answers, and ends at the first that says that none is left.
--
-- Not modelled: what the build with server-side benchmarking adds to `main` and `service_loop` before
-- and after the loops of the three servers; the client's modes that do not compile
-- (code/c/client/defines.h defines their macros empty, and `#elif` then has no expression), logging
-- (code/c/common/debug.h) and the debug print of the rings. The kernel is a parameter: its answers are arguments, and the steps that Uring.Loop gives
-- it are those that io_uring documents. The memory orders of the atomic accesses to
-- the rings are taken for program order.
pub mod Benchmark
pub mod Client
pub mod Epoll
pub mod Links
pub mod Measurements
pub mod Net
pub mod Poll
pub mod Pollfd
pub mod Prelude
pub mod Tests
pub mod Time
pub mod Uring
