-- ===== src/Syscalls.antt =====
-- kernel/syscalls.c, the system calls.
pub mod Simple
pub mod Transfer
pub mod Exit
pub mod Fork
pub mod Isr
pub mod Adopted
pub mod Told
pub mod Waits
pub mod Queries
pub mod Dispatched
pub mod Ended
pub mod Exiting
pub mod Woken
pub mod Zombify
pub mod Reparent
pub mod Adopt
pub mod Sleeping
pub mod Sleep
