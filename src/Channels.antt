-- ===== src/Channels.antt =====
-- src/channels.rs: the handles of channels, and the map from local and remote ids to them.
pub mod Handle
pub mod Map
pub mod User
pub mod Inbound
