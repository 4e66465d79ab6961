-- ===== src/Schema.antt =====
-- src/schema.rs: the wire messages and their codecs, one child module to a message.
pub mod Flags
pub mod Close
pub mod Cancel
pub mod NoData
pub mod Want
pub mod Unwant
pub mod Bitfield
pub mod Extension
pub mod Open
pub mod Synchronize
pub mod Defaults
pub mod Range
pub mod Request
pub mod Data
