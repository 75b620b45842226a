-- ===== src/Cache.antt =====
-- The package cache/: gates, the shared flights, ranking and replay.
pub mod Keys
pub mod SingleFlight
pub mod Gates
pub mod Replay
pub mod Ranking
pub mod Entries
pub mod Levels
pub mod Service
