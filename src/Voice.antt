-- ===== src/Voice.antt =====
-- kiosk_agent/voice/text.py: the text that is spoken.
pub mod Chars
pub mod Spaces
pub mod Clean
pub mod Text
