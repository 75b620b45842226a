-- ===== src/Settlement.antt =====
-- The package settlement/: the ledgers that are written in batches.
pub mod Batcher
