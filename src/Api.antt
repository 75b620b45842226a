-- ===== src/Api.antt =====
-- The package api/: the authentication of a request.
pub mod AuthCache
pub mod Auth
pub mod Ledger
pub mod Attempts
pub mod Sse
pub mod Gateway
pub mod NonStream
pub mod Hedged
pub mod Stream
pub mod Upstream
pub mod Handler
pub mod Streaming
pub mod Samples
