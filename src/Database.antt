-- ===== src/Database.antt =====
-- db_runtime.py and db_utils.py (src/mmrelay): the tables of the relay's SQLite file, transactions,
-- the message map, and the tables of node names. The children model the code; what they prove
-- stands in those named for it.
pub mod Runtime
pub mod MessageMap
pub mod Ledger
pub mod Upgrade
pub mod NameTables
pub mod Snapshot
pub mod NameSync
pub mod Committed
pub mod Preserved
pub mod Collected
pub mod Merging
pub mod FirstSync
mod Tests
