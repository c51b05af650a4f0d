-- ===== src/FileSystem/Unlink/Freed.antt =====
-- The end of sfs_unlink: the inode that it frees.
use simple_os_dev_projs.FileSystem.Disk.{Disk}
