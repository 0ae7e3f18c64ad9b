-- ===== src/Mutator.antt =====
-- src/mutator/*.py: the mutators, which rewrite the parsed calls that an injector replays.
pub mod Each
pub mod Time
pub mod Rename
pub mod Fsync
pub mod Identify
pub mod Between
pub mod Stat64
pub mod Connect
pub mod Filetype
pub mod Close
pub mod Simple
