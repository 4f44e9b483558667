-- ===== src/Plugins.antt =====
-- Plugins (src/mmrelay/plugins/base_plugin.py) and what they keep of a node
-- (src/mmrelay/db_utils.py, the table `plugin_data`).
pub mod Data
pub mod NodeData
pub mod Records
pub mod Latest
pub mod Settings
pub mod Tiers
pub mod Tests
