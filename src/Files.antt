-- ===== src/Files.antt =====
-- tools/: file names, paths, the file system and the class `File`.
pub mod Names
pub mod Paths
pub mod FileSystem
pub mod File
