-- ===== src/Plugins.antt =====
-- internal/plugin: the loader of disk plugins, and the manager of the loaded set.
pub mod Loader
pub mod Manager
mod Tests
