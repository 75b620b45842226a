-- ===== src/Routing.antt =====
-- The package routing/: circuit breakers, local statistics, selection, hedging and degradation.
pub mod Breaker
pub mod Stats
pub mod Selector
pub mod Hedge
pub mod Ladder
pub mod Cascade
