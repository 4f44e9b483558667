-- ===== src/PluginLoader.antt =====
-- The requirements of plugins (src/mmrelay/plugin_loader.py): reading a requirements file with its
-- includes, and the policy on packages that do not come from the index.
pub mod Words
pub mod Risk
pub mod Collect
pub mod Remote
pub mod Policy
pub mod Includes
pub mod Flattened
pub mod Tests
