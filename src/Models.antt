-- ===== src/Models.antt =====
-- kiosk_agent/models.py: the rows of the database and the database itself.
mod Chat
mod Device
mod Tables
unfoldable pub use Chat.*
unfoldable pub use Device.*
unfoldable pub use Tables.*
