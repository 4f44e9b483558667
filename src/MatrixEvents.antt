-- ===== src/MatrixEvents.antt =====
-- on_room_message of matrix/events.py (src/mmrelay): what a Matrix event becomes on the mesh, with
-- the functions of matrix/replies.py, prefixes.py, room_mapping.py and command_bridge.py that it
-- calls. The children model the code; `Guarded` and `Plain` hold what is proved.
pub mod Text
pub mod State
pub mod Prefixes
pub mod Guards
pub mod Sending
pub mod Replying
pub mod Reactions
pub mod Handler
pub mod Guarded
pub mod Written
mod Tests
