-- ===== src/Bpf.antt =====
-- democracy-scheduler/src/bpf.rs: the connection to the scheduler's part in the kernel.
pub mod Task
pub mod Message
pub mod Libbpf
pub mod Connection
pub mod Counters
pub mod Lifetime
pub mod Init
pub mod Views
pub mod Dequeue
pub mod Dispatch
pub mod Implements
