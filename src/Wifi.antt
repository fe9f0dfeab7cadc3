-- ===== src/Wifi.antt =====
-- kiosk_agent/wifi.py: the Wi-Fi of the kiosk, through `nmcli` and `gdbus`.
pub mod Host
pub mod Scan
pub mod Profiles
pub mod Status
pub mod Gvariant
pub mod Connect
