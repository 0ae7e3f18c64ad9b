-- ===== src/Replay.antt =====
-- src/rreplay.py: the configuration of a test run, and the assignment of rr's process sets to test
-- subjects.
pub mod Config
pub mod Messages
pub mod Handles
pub mod Pipe
pub mod Session
