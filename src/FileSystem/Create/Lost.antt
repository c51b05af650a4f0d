-- ===== src/FileSystem/Create/Lost.antt =====
-- A file that sfs_create has created is not found again.
use simple_os_dev_projs.Base.{
  ℕ, ◌<◌, ◌≤◌, ◌≡◌, ◌≢◌, refl, sym, ◌∙◌, false, Ends, ends, update, update_self, update_ne,
}
use simple_os_dev_projs.FileSystem.Disk.{Device}
use simple_os_dev_projs.FileSystem.Inode.{no_ref}
use simple_os_dev_projs.FileSystem.Inode.Reading.{home_of}
use simple_os_dev_projs.FileSystem.Path.Tree.{child, children, inode_rounds}
use simple_os_dev_projs.FileSystem.Dirs.{success}
use simple_os_dev_projs.FileSystem.Create.{Text, Fs, Draws, sfs_create}
use simple_os_dev_projs.FileSystem.Create.Slot.{open_child_space-hidden}
use simple_os_dev_projs.FileSystem.Create.Writes.{
  Steps, dir_written, inode_written, disk_written, create-ok,
}

-- Reads and writes of the disk succeed, the rounds suffice, the count of inodes is not 5000, the path
-- has a slash, its directory is found and has a free entry, and the searches of both maps find an entry.
-- If the directory has a free entry in front of the one that is taken, and the new inode lies in another
-- block than the directory's, sfs_create succeeds and the children that are listed and searched in
-- the directory are the ones before: the new file is not among the entries before the first -1.
pub sfs_create-hidden :
    (g f : ℕ) (dev : Device) (w : Draws) (path : Text) (mode gap : ℕ) (fs : Fs)
    → ((n : ℕ) → dev.read_fails n ≡ false)
    → ((n : ℕ) → dev.write_fails n ≡ false)
    → inode_rounds ≤ g
    → (s : Steps g f dev w path fs) → home_of s.new_inumb ≢ home_of s.dir_inumb
    → gap < s.slot
    → child fs.disk s.dir_inumb gap ≡ no_ref
    → Ends
        (λ r. (r.0 ≡ success) × (children r.1.disk s.dir_inumb ≡ children fs.disk s.dir_inumb))
        (sfs_create g f dev w path mode fs)
sfs_create-hidden g f dev w path mode gap fs reads writes rounds s apart before is_free =
    let p = home_of s.dir_inumb in
    let first = update s.data_taken p (dir_written s) in
    rw (create-ok g f dev w path mode fs reads writes rounds s) (
      ends (
        refl,
        open_child_space-hidden fs.disk (disk_written mode s) s.dir_inumb gap s.slot s.new_inumb
            s.slot_free before is_free
            (update_ne first (home_of s.new_inumb) (inode_written mode s) p (λ e. apart (sym e))
              ∙ update_self s.data_taken p (dir_written s)),
      ))
