-- ===== src/Staff.antt =====
-- The requests to the staff: kiosk_agent/integrations/saas.py and the delivery in tasks.py.
pub mod Saas
pub mod Forward
