-- ===== src/Remote.antt =====
-- kiosk_agent/remote_control.py: the press of a stored infrared button.
pub mod Url
pub mod Command
pub mod Reply
pub mod Press
pub mod Tv
pub mod Capture
