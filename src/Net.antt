-- ===== src/Net.antt =====
-- net/: the collective communication that the nodes build on point to point messages.
pub mod Topology
pub mod Engine
pub mod Gather
pub mod Scatter
mod Tests
