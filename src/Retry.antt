-- ===== src/Retry.antt =====
-- src/mmrelay/matrix/relay.py: the sending of a message to a Matrix room, with retries.
pub mod Send
pub mod Outcome
mod Tests
