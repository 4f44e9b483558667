-- ===== src/RoomMapping.antt =====
-- src/mmrelay/matrix/room_mapping.py: the rooms of the configuration. `Entries` reads and changes them,
-- `Update` and `Resolve` are about that.
pub mod Entries
pub mod Update
pub mod Resolve
mod Tests
