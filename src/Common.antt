-- ===== src/Common.antt =====
-- common/: what all parts use.
pub mod Strings
pub mod Allocator
pub mod Configure
pub mod Random
pub mod Uri
pub mod Hash
pub mod Dashboard
pub mod Queue
mod Tests
