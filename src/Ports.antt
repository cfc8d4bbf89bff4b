-- ===== src/Ports.antt =====
-- cpp: the C++ ports of the programs, on their own and against the C programs.
pub mod Fork
pub mod OddEven
pub mod SharedMemory
pub mod Pipe
pub mod Socket
pub mod Matrix
pub mod Data
pub mod MessageQueue
pub mod Counter
pub mod Airport
