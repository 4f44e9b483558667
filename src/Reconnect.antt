-- ===== src/Reconnect.antt =====
-- src/mmrelay/meshtastic/events.py: what happens when the connection to the node is lost. `Loss` is
-- the callback, `Loop` the coroutine that reconnects, `Trace` both, with the other threads.
pub mod State
pub mod Loss
pub mod Loop
pub mod Trace
pub mod Single
pub mod Backoff
pub mod Cleared
mod Tests
