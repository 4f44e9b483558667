-- ===== src/Routing.antt =====
-- src/mmrelay/meshtastic/packet_routing.py: which packets are relayed, left to plugins or dropped.
-- `Portnum` names port numbers, `Overrides` reads the configuration, `Classify` decides.
pub mod Portnum
pub mod Overrides
pub mod Classify
pub mod Policy
pub mod Entries
mod Tests
