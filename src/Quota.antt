-- ===== src/Quota.antt =====
-- The package quota/ and the scripts of lua/: admission, settlement and sweeping of one tenant.
pub mod Estimator
pub mod Local
pub mod Scripts
pub mod Service
