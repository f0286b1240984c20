-- ===== src/HashMap.antt =====
-- `std::collections::HashMap`, as far as syncstate uses it: a list of entries whose order of
-- iteration is left open.
mod Entries
mod Laws
mod Iter
mod Counts
pub use Entries.{HashMap, contains_key, Distinct}
unfoldable pub use Entries.{insert, remove, extend, last_write}
pub use Laws.*
pub use Iter.*
pub use Counts.{Distinct-length}
