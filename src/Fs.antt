-- ===== src/Fs.antt =====
-- xv6/fs.c: blocks, inodes, the content of files, directories and paths.
pub mod Blocks
pub mod Bits
pub mod Bitmap
pub mod Inode
pub mod Dinode
pub mod Truncate
pub mod Content
pub mod Directory
pub mod Path
pub mod Sample
mod Tests
