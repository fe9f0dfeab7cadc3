-- ===== src/Discovery.antt =====
-- kiosk_agent/tasks.py: the addresses of the controllers are refreshed.
pub mod Sync
pub mod Identity
pub mod Scan
