-- ===== src/Queues.antt =====
-- kernel/queues.c, the kernel's self-ordering queues.
pub mod State
pub mod Qnodes
pub mod Ops
pub mod Table
pub mod Model
