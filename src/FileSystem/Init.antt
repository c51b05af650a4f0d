-- ===== src/FileSystem/Init.antt =====
-- disk_open and disk_close of Simple_File_System/src/block.c, and sfs_init of sfs.c.
pub mod Root
use simple_os_dev_projs.Base.{ℕ, Option, none, some, Run, ok, exited, ◌>>=◌, update}
use simple_os_dev_projs.FileSystem.Disk.{Block, Device}
use simple_os_dev_projs.FileSystem.Bytes.{store}
use simple_os_dev_projs.FileSystem.Inode.{
  at_mode, at_state, at_uid, at_links, at_flag, at_time, at_ctime, at_mtime, letter_d, no_refs,
  no_indirect, write_or_exit,
}
use simple_os_dev_projs.FileSystem.Create.{Fs}

-- disk_open: `diskfile` is nothing where it is negative, and so is what `open` returns.
unfoldable pub disk_open : (opened diskfile : Option ℕ) → Run (Option ℕ)
disk_open opened (some fd) = ok (some fd)
disk_open none none = exited
disk_open (some fd) none = ok (some fd)

-- disk_close: the descriptor that is closed, and `diskfile`, which keeps it.
unfoldable pub disk_close : (diskfile : Option ℕ) → Option ℕ × Option ℕ
disk_close diskfile = (diskfile, diskfile)

-- `S_IRUSR | S_IWUSR | S_IXUSR`.
abbrev pub root_mode : ℕ
root_mode = 448

-- Lines 83 to 104, on what the stack held; the name and the first indirect pointer stay that.
unfoldable pub root_inode : (now : ℕ) → (stack : Block) → Block
root_inode now stack = no_indirect 0 (
    no_refs 10 0 0 (
      store 8 at_mtime now (
        store 8 at_time now (
          store 8 at_ctime now (
            update
              (store 2 at_links 1
                (store 4 at_uid 0 (update (store 4 at_mode root_mode stack) at_state letter_d)))
              at_flag 0)))))

-- sfs_init, with what the stack held in the places of its two blocks.
unfoldable pub sfs_init :
    Device
    → (opened diskfile : Option ℕ) → (now : ℕ) → (inode_stack bitmap_stack : Block) → Fs
    → Run (Option ℕ × Fs)
sfs_init dev opened diskfile now inode_stack bitmap_stack fs = do
  file ← disk_open opened diskfile
  d1 ← write_or_exit dev 0 (update bitmap_stack 0 1) fs.disk
  d2 ← write_or_exit dev 20 (root_inode now inode_stack) d1
  ok (file, record { disk = d2; inodes_used = 0; blocks_used = 0 })
