-- ===== src/Table.antt =====
-- table/: the two kinds of tables, a worker's half and a server's half of each.
pub mod Array
pub mod Kv
mod Tests
