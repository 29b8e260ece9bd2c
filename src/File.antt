-- ===== src/File.antt =====
-- src/file/: files read through a buffer, and what stands in directories.
pub mod Stream
pub mod Window
pub mod Pattern
pub mod Entries
pub mod Dir
pub mod Lines
pub mod Finding
pub mod Writing
pub mod Metadata
pub mod Opening
