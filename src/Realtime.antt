-- ===== src/Realtime.antt =====
-- kiosk_agent/views.py: the endpoints of a Realtime voice session.
pub mod Session
pub mod Message
pub mod Tool
