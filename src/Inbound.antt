-- ===== src/Inbound.antt =====
-- src/mmrelay/meshtastic/events.py: what becomes of a packet from the mesh. `Guards` are the tests
-- that a packet must pass, `Plugins` and `Rooms` its receivers, `Handler` puts them together.
pub mod State
pub mod Settings
pub mod Guards
pub mod Names
pub mod Plugins
pub mod Rooms
pub mod Relays
pub mod Handler
pub mod Admission
pub mod Safety
pub mod Dispatch
pub mod Delivery
pub mod Pipeline
mod Tests
