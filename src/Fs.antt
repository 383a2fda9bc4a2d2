-- ===== src/Fs.antt =====
-- fs_PintOS/filesys: the file system, from the block device up.
pub mod Device
pub mod FreeMap
pub mod Inode
pub mod File
pub mod Directory
mod Tests
