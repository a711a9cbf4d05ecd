-- ===== src/Core.antt =====
-- The core service (core/): its lifecycle and the health watchdog.
pub mod Service
pub mod Watchdog
pub mod Logging
