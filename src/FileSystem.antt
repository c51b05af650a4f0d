-- ===== src/FileSystem.antt =====
-- The file system of Simple_File_System/src: the disk of block.c, and the byte maps, the inodes,
-- the paths and the operations of sfs.c.
mod Tests
pub mod Disk
pub mod Bitmap
pub mod Bytes
pub mod Inode
pub mod Path
pub mod Attr
pub mod Dirs
pub mod Create
pub mod Unlink
pub mod Init
