-- ===== src/Tools.antt =====
-- kiosk_agent/core/tools.py: the tools that the model may call.
pub mod Runner
pub mod Input
pub mod Reply
pub mod Decimal
pub mod Local
pub mod Listing
pub mod Press
pub mod Air
pub mod Execute
