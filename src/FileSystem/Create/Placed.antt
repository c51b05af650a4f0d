-- ===== src/FileSystem/Create/Placed.antt =====
-- Where the file is after sfs_create: in a block of its own, and in the block of its directory.
use simple_os_dev_projs.Base.{
  ℕ, ◌+◌, ◌≤◌, ◌<◌, ◌≡◌, ◌≢◌, refl, sym, ap, subst, ◌∙◌, false, inl, Ends, ends, arith, update,
  update_self,
}
use simple_os_dev_projs.FileSystem.Disk.{Block, Disk, Device}
use simple_os_dev_projs.FileSystem.Inode.{at_state, letter_f, no_ref, block_ptr, inode_offset}
use simple_os_dev_projs.FileSystem.Inode.Reading.{home_of}
use simple_os_dev_projs.FileSystem.Inode.Refs.{
  block_ptr-set, block_ptr-set_other, set_block_ptr-Outside,
}
use simple_os_dev_projs.FileSystem.Path.Tree.{child, inode_rounds}
use simple_os_dev_projs.FileSystem.Dirs.{success}
use simple_os_dev_projs.FileSystem.Create.{Text, Fs, Draws, sfs_create}
use simple_os_dev_projs.FileSystem.Create.Fill.{fill_inode-state, fill_inode-refs}
use simple_os_dev_projs.FileSystem.Create.Writes.{
  Steps, dir_written, inode_written, disk_written, create-ok,
}

-- Byte `o` of a block starts an inode of a file whose only block is `data_block`.
pub record IsFileAt (o data_block : ℕ) (b : Block) : Type 0 where
  pub is_file : b (o + at_state) ≡ letter_f
  pub first_block : block_ptr o 0 b ≡ data_block
  pub no_more : (i : ℕ) → 0 < i → i < 10 → block_ptr o i b ≡ no_ref

module _ {g f : ℕ} {dev : Device} {w : Draws} {path : Text} {fs : Fs} where
  -- The directory has the new inode in the free entry and its other entries as before; the new inode's
  -- block has a file at the place of the directory in its own block; no other block behind the maps
  -- changed.
  pub record Placed (s : Steps g f dev w path fs) (u : Disk) : Type 0 where
    pub referred : child u s.dir_inumb s.slot ≡ s.new_inumb
    pub others : (j : ℕ) → s.slot ≢ j → child u s.dir_inumb j ≡ child fs.disk s.dir_inumb j
    pub file : IsFileAt (inode_offset s.dir_inumb) s.data_block (u (home_of s.new_inumb))
    pub rest :
        (m : ℕ) → 20 ≤ m → m ≢ home_of s.dir_inumb → m ≢ home_of s.new_inumb → u m ≡ fs.disk m

  inode_written-IsFileAt :
      (mode : ℕ) (s : Steps g f dev w path fs)
      → IsFileAt (inode_offset s.dir_inumb) s.data_block (inode_written mode s)
  inode_written-IsFileAt mode s =
      let o = inode_offset s.dir_inumb in
      let small = s.data_small in
      record {
        is_file =
            set_block_ptr-Outside o 0 s.data_block _ (o + at_state) (inl (omega arith))
            ∙ fill_inode-state o mode _ s.new_inumb w.now (s.inode_taken (home_of s.new_inumb));
        first_block = block_ptr-set o 0 s.data_block _ (omega arith);
        no_more = λ i above below.
            block_ptr-set_other o 0 s.data_block i _ (omega arith)
            ∙ fill_inode-refs o mode _ s.new_inumb w.now _ i below;
      }

-- Reads and writes of the disk succeed, the rounds suffice, the count of inodes is not 5000, the
-- path has a slash, its directory is found and has a free entry, and the searches of both maps find
-- an entry. If the new inode lies in the block of the directory's, sfs_create reports success, but
-- what it wrote to the directory is lost: in the directory's own place there is now a file with the
-- data block as its only entry.
pub sfs_create-replaces :
    (g f : ℕ) (dev : Device) (w : Draws) (path : Text) (mode : ℕ) (fs : Fs)
    → ((n : ℕ) → dev.read_fails n ≡ false)
    → ((n : ℕ) → dev.write_fails n ≡ false)
    → inode_rounds ≤ g
    → (s : Steps g f dev w path fs) → home_of s.new_inumb ≡ home_of s.dir_inumb
    → Ends
        (λ r.
          (r.0 ≡ success)
          × IsFileAt (inode_offset s.dir_inumb) s.data_block (r.1.disk (home_of s.dir_inumb)))
        (sfs_create g f dev w path mode fs)
sfs_create-replaces g f dev w path mode fs reads writes rounds s together =
    let n = home_of s.new_inumb in
    let first = update s.data_taken (home_of s.dir_inumb) (dir_written s) in
    rw (create-ok g f dev w path mode fs reads writes rounds s) (
      ends (
        refl,
        subst (IsFileAt (inode_offset s.dir_inumb) s.data_block)
            (sym (update_self first n (inode_written mode s)) ∙ ap (disk_written mode s) together)
            (inode_written-IsFileAt mode s),
      ))
