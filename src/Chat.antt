-- ===== src/Chat.antt =====
-- kiosk_agent/services.py and the stay reset of kiosk_agent/views.py.
pub mod Store
pub mod Enqueue
pub mod Reset
pub mod Sound
pub mod Kept
