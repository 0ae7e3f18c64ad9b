-- ===== src/Py.antt =====
-- The part of Python 2 that the program uses.
mod Strings
mod Data
mod Effects
mod Search
pub mod Decimal
pub mod Regex
pub mod ConfigParser
unfoldable pub use Strings.*
unfoldable pub use Data.*
unfoldable pub use Effects.*
unfoldable pub use Search.*
