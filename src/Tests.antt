-- ===== src/Tests.antt =====
-- A small kernel state on which the operations of the kernel are run.
pub mod Sample
pub mod Sio
pub mod Console
mod Queues
mod Procs
mod Clock
mod Text
mod Kmem
mod Start
mod Syscalls
