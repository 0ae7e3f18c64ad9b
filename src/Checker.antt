-- ===== src/Checker.antt =====
-- src/checker/checker.py
pub mod Trace
pub mod Calls
pub mod OpenThen
pub mod StatOpenFstat
pub mod Modify
pub mod Rename
pub mod AtLeastOnce
pub mod Urandom
pub mod Xattrs
pub mod Socket
pub mod DontRead
pub mod Classes
