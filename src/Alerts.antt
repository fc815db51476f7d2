-- ===== src/Alerts.antt =====
-- The alert state stores: the interface `AlertStateBackend` of internal/system/redis.go with its
-- contract, and the three implementations.
pub mod Store
pub mod Memory
pub mod Redis
pub mod Fallback
pub mod Agreement
