-- ===== src/Ac.antt =====
-- kiosk_agent/ac_control.py: the air conditioners and the ESP32 that drives each of them.
pub mod Protocol
pub mod Validate
pub mod Http
pub mod Response
pub mod Control
pub mod Sync
pub mod Valid
