-- ===== src/Lib.antt =====
-- The programs of posix-intro (folders c and cpp), exercises in POSIX processes, threads and
-- inter-process communication, with proofs of what makes each of them correct.
--
-- Parts and files. Each program is one component; they share the semaphore
-- wrapper and, where threads meet at one lock, the model of that.
--   Semaphore     c/include/posix_semaphore.h: rk_sema_init, rk_sema_wait, rk_sema_post,
--                 rk_sema_destroy over <semaphore.h>, which is the record SemaphoreApi.
--   Warehouse     c/c_lab05_b.c: the ring buffer, its functions and print_buffer
--                 (Warehouse), the threads as a step relation (Warehouse.System), the bounded
--                 queue as its specification (Warehouse.Queue).
--   OddEven       c/c_lab05_a.c: print_odd and print_even as a step relation.
--   Multiply      c/c_lab02_a.c: calculate, with the machine's wrap of 32 bits.
--   Matrix        c/c_lab02_b.c: calculate_row for every row, interleaved entry by entry.
--   Allocator     c/c_lab07_b.c: find_heap, my_malloc and test_malloc.
--   Process       c/c_lab01.c: fork, execl and waitpid with their error paths.
--   Locks         a lock as an interface, filled by a mutex of <pthread.h> and by a binary
--                 semaphore of Semaphore.
--   Critical      threads that meet at one lock, for Counter, Printers and Airport: their
--                 statements and steps, and the lemmas that hold of all such threads;
--                 Relabel and Refinement compare the runs of two programs.
--   Counter       c/c_lab03_a.c: ten threads that count under one mutex.
--   Printers      c/c_lab03_b.c: two threads that write blocks of lines under one mutex.
--   Airport       c/c_lab04.c and c/c_lab06.c: the same landings with a mutex and with a
--                 semaphore.
--   SharedMemory  c/ipc/include/shm_type.h with the write.c and read.c of
--                 c/ipc/memory_based/shared_memory: both processes, and SIGINT.
--   MessageQueue  c/ipc/include/type.h with the write.c and read.c of
--                 c/ipc/message_passing/message_queue: both processes.
--   Pipe          c/ipc/message_passing/pipe/twowaypipe.c: both processes, their pipes, SIGPIPE
--                 and SIGINT.
--   Socket        c/ipc/include/socket.h with the client.c and server.c of
--                 c/ipc/message_passing/socket: both processes over a byte stream; their
--                 connection and its errors are Socket.Setup.
--   Monitor       c/include/simple_monitor.h: waits and knocks; no program uses it.
--   Ports         the C++ ports. Fork is cpp/cc_lab01.cc, Data cpp/cc_lab02_a.cc, Matrix
--                 cpp/cc_lab02_b.cc, Counter cpp/cc_lab03_a.cc, Airport cpp/cc_lab04.cc,
--                 and OddEven Custom::Binary::Semaphore of cpp/include/buffer.hh. Under cpp/ipc, SharedMemory is
--                 memory_based/shared_memory/shm.hh, MessageQueue
--                 message_passing/message_queue/mqueue.hh, Pipe
--                 message_passing/pipe/twowaypipe.cc, and Socket
--                 message_passing/socket/sockets.hh.
--   Common        shared names, lists, integers, families of threads, exits with a message,
--                 <stdio.h> on bytes, and message queues and byte streams as interfaces.
--
-- How code corresponds to definitions. A function keeps its name; a function on static
-- variables takes and returns a record of them. Threads are interleaved in any order: a step
-- relation has one constructor for each statement that touches shared state or writes, and a
-- thread's place in its code is a value of a type Pc, and in Critical the list of the
-- statements that it has left. What is written is the label of the step.
-- A system call's result is an argument, or a law of an interface record that states what its
-- manual documents. A call of error_msg ends the program: Outcome.exits, or an Ending.
--
-- Bounds. Loops are recursions on the rounds left or on the list walked over, so no fuel is used.
-- An int32_t that the program keeps non-negative is a natural number; sums that could leave 32
-- bits are taken modulo 2 ^ 32, and a loop of Multiply whose counter would pass INT32_MAX has no
-- result. A mapping of SharedMemory has as many bytes that can be accessed as its file and the
-- pages of FILE_LEN bytes allow, and a store behind them ends the writer. The threads of
-- Warehouse are any number of producers and consumers, of which main makes three and two.
--
-- Not modelled: the C++ ports of tasks 3b, 5b and 6; cpp/include/common.hh; the Rust ports;
-- monitor_destroy, which only frees; the SIGINT handler of the message queue programs; the
-- Makefile; the output formats of printf but for the values printed; sleep; and the branches for
-- Apple's dispatch semaphores.
pub mod Common
pub mod Semaphore
pub mod Warehouse
pub mod OddEven
pub mod Multiply
pub mod Matrix
pub mod Allocator
pub mod Process
pub mod Locks
pub mod Critical
pub mod Airport
pub mod Counter
pub mod Printers
pub mod SharedMemory
pub mod MessageQueue
pub mod Pipe
pub mod Socket
pub mod Monitor
pub mod Ports
