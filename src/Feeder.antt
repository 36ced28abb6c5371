-- ===== src/Feeder.antt =====
-- feeder/: what is done to a batch of data before training.
pub mod Ids
pub mod Indices
pub mod Record
pub mod Assemble
pub mod Produce
pub mod Header
pub mod Batch
mod Tests
