-- ===== src/Examples.antt =====
-- Concrete inputs: tests of the definitions, and the theorems at inputs that meet their hypotheses.
mod Data
mod Chat
mod Staff
mod Discovery
mod Scan
mod Realtime
mod Remote
mod Capture
mod Ac
mod Agent
mod Uuids
mod Tools
mod System
mod Wifi
mod Voice
mod Permissions
