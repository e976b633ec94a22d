-- ===== src/TextFile.antt =====
-- The text file sink backend and the collector of rotated files, libs/log/src/text_file_backend.cpp.
pub mod Names
pub mod Collector
pub mod Rotation
pub mod Backend
mod Examples
