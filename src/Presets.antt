-- ===== src/Presets.antt =====
-- internal/presets: the allow-lists that a job's parameters are checked against.
pub mod Tables
pub mod Checks
pub mod Muxing
pub mod Convert
pub mod Compress
pub mod Image
pub mod Download
pub mod Edit
pub mod Source
