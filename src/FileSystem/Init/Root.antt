-- ===== src/FileSystem/Init/Root.antt =====
-- What sfs_init leaves on the disk.
use simple_os_dev_projs.Base.{
  ℕ, ◌<◌, ◌≡◌, ◌≢◌, inl, refl, ◌∙◌, false, true, Option, [], ok, ◌>>=◌, Ends, ends, arith, ==_iff,
  update, update_ne,
}
use simple_os_dev_projs.FileSystem.Disk.{Block, Disk, Device}
use simple_os_dev_projs.FileSystem.Bytes.{load, store}
use simple_os_dev_projs.FileSystem.Inode.{
  at_state, at_flag, letter_d, no_ref, block_ptr, set_block_ptr, no_refs, no_indirect, inode_offset,
}
use simple_os_dev_projs.FileSystem.Inode.Reading.{home_of, write_or_exit-ok}
use simple_os_dev_projs.FileSystem.Inode.Refs.{block_ptr_cong, no_refs-all, no_indirect-Outside}
use simple_os_dev_projs.FileSystem.Path.Tree.{child, children, children_from-end}
use simple_os_dev_projs.FileSystem.Dirs.{may_open}
use simple_os_dev_projs.FileSystem.Create.{Fs}
use simple_os_dev_projs.FileSystem.Init.{disk_open, root_inode, sfs_init}

root_inode-state : (now : ℕ) (stack : Block) → root_inode now stack at_state ≡ letter_d
unfolding root_inode store set_block_ptr no_refs no_indirect
root_inode-state now stack = refl

root_inode-flag : (now : ℕ) (stack : Block) → root_inode now stack at_flag ≡ 0
unfolding root_inode store set_block_ptr no_refs no_indirect
root_inode-flag now stack = refl

root_inode-may_open : (now : ℕ) (stack : Block) → may_open 0 (root_inode now stack) ≡ true
unfolding root_inode store set_block_ptr no_refs no_indirect may_open load
root_inode-may_open now stack = refl

-- The root is a closed directory without entries that may be opened, the first entry of the inode map
-- is taken, the counters are 0, and all other blocks are as they were.
pub record Rooted (d : Disk) (fs : Fs) : Type 0 where
  pub may_be_opened : may_open (inode_offset 0) (fs.disk (home_of 0)) ≡ true
  pub not_open : fs.disk (home_of 0) at_flag ≡ 0
  pub entries : (i : ℕ) → i < 10 → child fs.disk 0 i ≡ no_ref
  pub no_children : children fs.disk 0 ≡ []
  pub reserved : fs.disk 0 0 ≡ 1
  pub none_used : (fs.inodes_used ≡ 0) × (fs.blocks_used ≡ 0)
  pub other_blocks : (n : ℕ) → n ≢ 0 → n ≢ 20 → fs.disk n ≡ d n

block_ptr-root :
    (now : ℕ) (stack : Block) (i : ℕ) → i < 10 → block_ptr 0 i (root_inode now stack) ≡ no_ref
unfolding root_inode
block_ptr-root now stack i less =
    block_ptr_cong 0 i (no_indirect 0 (no_refs 10 0 0 _)) (no_refs 10 0 0 _)
      (λ j le below. no_indirect-Outside 0 (no_refs 10 0 0 _) j (inl (omega arith)))
    ∙ no_refs-all 10 0 0 _ i (omega arith) (omega arith)

-- Both writes of sfs_init, the root's last.
abbrev first_disk : (now : ℕ) → (inode_stack bitmap_stack : Block) → Disk → Disk
first_disk now inode_stack bitmap_stack d =
    update (update d 0 (update bitmap_stack 0 1)) 20 (root_inode now inode_stack)

child-root :
    (now : ℕ) (a b : Block) (d : Disk) (i : ℕ) → i < 10 → child (first_disk now a b d) 0 i ≡ no_ref
unfolding inode_offset
child-root now a b d i less = block_ptr-root now a i less

first_disk-Rooted :
    (now : ℕ) (a b : Block) (d : Disk)
    → Rooted d (record { disk = first_disk now a b d; inodes_used = 0; blocks_used = 0 })
unfolding inode_offset
first_disk-Rooted now a b d = record {
  may_be_opened = root_inode-may_open now a;
  not_open = root_inode-flag now a;
  entries = child-root now a b d;
  no_children =
      children_from-end (first_disk now a b d) 0 9 0
        ((==_iff _ _).1 (child-root now a b d 0 (omega arith)));
  reserved = refl;
  none_used = (refl, refl);
  other_blocks = λ n n0 n20.
      update_ne (update d 0 (update b 0 1)) 20 (root_inode now a) n n20
      ∙ update_ne d 0 (update b 0 1) n n0;
}

-- If the disk file is open or can be opened, and the writes of blocks 0 and 20 succeed, sfs_init
-- ends with a root that is a directory without entries, not open, that its owner may open; with the
-- first entry of the inode map taken and the counters at 0; and with every block but 0 and 20 as it
-- was, whatever the stack held.
pub sfs_init-Rooted :
    (dev : Device) (opened diskfile file : Option ℕ) (now : ℕ) (a b : Block) (fs : Fs)
    → disk_open opened diskfile ≡ ok file
    → dev.write_fails 0 ≡ false
    → dev.write_fails 20 ≡ false
    → Ends (λ r. (r.0 ≡ file) × Rooted fs.disk r.1) (sfs_init dev opened diskfile now a b fs)
unfolding sfs_init
sfs_init-Rooted dev opened diskfile file now a b fs e w0 w20 = rw e (
    rw (write_or_exit-ok dev 0 (update b 0 1) fs.disk w0, ◌>>=◌)
      (rw (write_or_exit-ok dev 20 (root_inode now a) _ w20, ◌>>=◌)
        (ends (refl, first_disk-Rooted now a b fs.disk))))
