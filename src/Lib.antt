-- ===== src/Lib.antt =====
-- Verification of the C and C++ programs of Linux_System_Programming.
--
-- The repository is a set of small programs that each drive one part of the Linux API. Modelled are
-- the socket programs of socket_examples_c.c, the same as classes in socket_examples_cpp.cpp,
-- signal_handling.c, directory_ops.c, process_management.c, pipes_ipc.c, memory_management.c,
-- file_io.c and system_info.c.
--
-- Base: numbers, lists and Boolean tests. `int` is ℤ over the native ℕ.
--
-- Posix: the boundary to the system. A C function is a tree (`Prog`) whose nodes are calls, lines of
--   output, branches on what the calls gave, and undefined behaviour (`fault`). `run` walks such a tree
--   along a finite list of replies. The kernel is not part of the repository: a reply is arbitrary,
--   but for what `IsLawful` states, the documented results of `socket`, `accept`, the reads, `readlink`,
--   `send` and `mmap`.
--   A reply holds all that a call may write through its pointers. `Libc` has the pure functions of the
--   C library and its headers. A run ends `returned`, `blocked` (in a call without a reply), `faulted`
--   or `cut` (the rounds given to its loops are used up).
--
-- Spec: monitors, each an abstract promise about traces of calls. Resources: only held descriptors and
--   blocks are named, a bounded number is held. Echo: what was received is sent back. Serving and
--   Asking: the order of a server's and a client's calls, and for a client that it sends its message. Meter: the bytes moved. Beside each
--   monitor stand the rules by which a program is shown to obey it, call by call.
--
-- Socket: one module for each section of socket_examples_c.c: EchoServer (simple_echo_server),
--   TcpClient (simple_tcp_client), ThreadServer (multithreaded_echo_server, handle_client), Udp
--   (udp_echo_server, udp_client), Nonblocking (set_nonblocking, nonblocking_connect), SelectServer
--   (select_based_server), Bandwidth (bandwidth_test_server, bandwidth_test_client). Each C function is
--   a definition of the same name, each of its loops is one too (echo_loop, accept_loop, handle_loop,
--   serve_loop, datagram_loop, receive_loop, send_loop, select_loop, serve_ready, close_slots). Local
--   buffers are arguments, since their first content is not known. Dispatch is `main` (socket_main).
--   The thread of the threaded server is a program of its own; what it owns is what `pthread_create`
--   handed over.
--
-- Cpp: socket_examples_cpp.cpp. Method has the methods of a class, programs with the object's fields as
--   a state that may throw (try_catch, and scoped for a local object, whose destructor runs at the end
--   of its scope). Socket (the class Socket), TcpServer (TCPServer, its threads' handle_client with the
--   override handle_client_impl as an argument), TcpClient, UdpServer, UdpClient, SelectEchoServer,
--   Bandwidth (BandwidthServer and bandwidth_test_client_cpp) and Dispatch (`main`, cpp_main). Scopes has
--   the proof rules for methods. An object with one socket field is that socket's state. Moving leaves
--   no_socket behind. The mutex of TCPServer is left out, since one thread alone locks it; a thread's
--   clock is a call that gives nanoseconds.
--
-- Signals: signal_handling.c as a state with the two globals, the loop's counter, the place in `main`
--   and the output, and a step for each signal delivered and for each move of `main`. A signal comes
--   before the loop's test or in `sleep`; the handlers and `main` write no variable in common.
--
-- Directory: directory_ops.c. Listing (examples 1 and 2), Creating (example 3) and Program (the other
--   examples, process_file and `main`, directory_main). `exit(1)` ends an example with false. `nftw` is
--   what it does next: a call of process_file, or its return. Tally, Prefixes and Streams hold the
--   monitors of these parts, Fuel the rounds of the loops.
--
-- Process: process_management.c (process_main). A process that `fork` made runs the rest of the same
--   tree, so that parent and child are two runs that differ in the reply of `fork`. `execlp` has a
--   reply only where it failed. Family is the monitor of who forks, waits and executes.
--
-- Pipes: pipes_ipc.c (pipes_main), with a definition for what each process does in each example. Lines has
--   the text that goes through a pipe, Pipeline the three processes of example 3 together: the text that
--   one writes is what `fgets` gives the next, in lines. The text that a format makes is an argument.
--   Ends is the monitor of the ends and streams that a process has open, Discipline shows that all
--   processes obey it.
--
-- Memory: memory_management.c (memory_main). A block is its address, which is a number, and what it holds
--   is a list. An access to a block or to the mapping is a node of its own (`touch`), so that Holdings,
--   the monitor of blocks, mappings and descriptors, sees whether what is accessed is held; it is no
--   call, and the reply that a run gives it is not used. Releases shows that `main` obeys the monitor,
--   Copies is about the copies between buffers.
--
-- FileIo: file_io.c (file_main), with Descriptors for its one open file, Disk for regular files, where
--   what a call gives follows from the calls before it, and Printing for what is read back of them.
--
-- SystemInfo: system_info.c (system_main). The environment is two arguments, what `getenv` gives and the
--   array `environ`. What is read through a pointer that a call gave faults where that is NULL, and so
--   does `%s` of it; `ctime` is a parameter that may give NULL.
--
-- A monitor may excuse undefined behaviour in some states: those after a call failed whose result the
-- source does not test.
--
-- Loops without a bound take a number of rounds; a run whose rounds are used up ends `cut`. That more
-- rounds than there are replies are enough, because each round makes a call, is shown in the modules
-- named Fuel: for the C servers and the bandwidth tests of socket_examples_c.c, for directory_ops.c, and
-- of the C++ classes for the threads of TCPServer and for UDPServer. It is not shown for TCPServer::run,
-- SelectEchoServer::run, the C++ bandwidth loops and the loops of pipes_ipc.c: what is said of their runs
-- holds unless they are cut, or takes enough rounds.
--
-- The select server keeps its clients in an array; SelectServer/Reference is the same server over a
-- list, and Table relates the two. `serve_ready` needs one round more than there are clients, which
-- `select_loop` gives it. An access outside the array is `fault`.
--
-- Not modelled: the floating point of the bandwidth tests, whose operands are kept.
-- A write to a closed connection raises no signal here. Exhausted memory (std::bad_alloc) is left out,
-- and so is what a child inherits in the buffer of stdout.
pub mod Base
pub mod Posix
pub mod Spec
pub mod Socket
pub mod Signals
pub mod Cpp
pub mod Directory
pub mod Process
pub mod Pipes
pub mod SystemInfo
pub mod Memory
pub mod FileIo
