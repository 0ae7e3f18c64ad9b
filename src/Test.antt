-- ===== src/Test.antt =====
-- src/rrtest.py and src/identify_opportunities.py: the set-up of a test.
pub mod Ini
pub mod Snip
pub mod Opportunities
pub mod Configure
pub mod Copy
pub mod Create
pub mod Main
