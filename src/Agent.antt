-- ===== src/Agent.antt =====
-- The concierge: kiosk_agent/core/agent_engine.py and the tasks of kiosk_agent/tasks.py.
pub mod Buffers
pub mod Run
pub mod Task
