-- ===== src/Procs.antt =====
-- kernel/procs.c, the process table, the process queues and the scheduler.
pub mod State
pub mod Model
pub mod Table
pub mod Sched
pub mod Start
