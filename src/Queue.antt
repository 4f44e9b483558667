-- ===== src/Queue.antt =====
-- src/mmrelay/message_queue.py: the queue in front of the Meshtastic node. `State` holds the object,
-- `Lifecycle` starting and stopping, `Enqueue` the way in, `Link` the connection test, `Send` what
-- is done with a result, `Processor` the coroutine and `Trace` the interleavings of all of these.
pub mod State
pub mod Lifecycle
pub mod Enqueue
pub mod Link
pub mod Send
pub mod Processor
pub mod Trace
pub mod Order
pub mod Frame
pub mod Fifo
pub mod Bounds
pub mod Account
pub mod Status
pub mod Course
pub mod Drained
pub mod Rate
mod Tests
pub mod Recovery
