-- ===== src/Health.antt =====
-- src/mmrelay/meshtastic/health.py: the requests of health probes and the clock skew between node
-- and host. `Skew` calibrates from packets, `Probes` tracks requests and claims their responses.
-- Times are in milliseconds.
pub mod Skew
pub mod Probes
pub mod Calibration
pub mod Claiming
mod Tests
