-- ===== src/Inject.antt =====
-- src/inject.py: the supervisor that answers a process's system calls from the trace.
pub mod Tables
pub mod Dispatch
pub mod Backing
pub mod Loop
pub mod Exit
pub mod Setup
pub mod Main
