-- ===== src/Monitors.antt =====
-- The monitors module: monitors/monitor.service.ts over its repository.
pub mod Normalize
pub mod Repository
pub mod Service
