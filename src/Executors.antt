-- ===== src/Executors.antt =====
-- src/mmrelay/meshtastic/executors.py: the worker for calls over BLE, which may hang. `State` is what
-- is kept of it, `Reset` replaces a worker that hangs, `Recovery` readmits a device, `Available` is
-- the test before a call.
pub mod State
pub mod Reset
pub mod Recovery
pub mod Available
pub mod Orphans
mod Tests
