-- ===== src/Plugins.antt =====
-- internal/pluginhost: the programs beside the downloader that recognise addresses for it.
pub mod Manifest
pub mod Command
pub mod Call
pub mod Manager
