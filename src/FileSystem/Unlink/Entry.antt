-- ===== src/FileSystem/Unlink/Entry.antt =====
-- What sfs_unlink leaves of a file and of the reference to it.
use simple_os_dev_projs.Base.{
  ℕ, zero, suc, ◌+◌, ◌/◌, ◌%◌, ◌≤◌, ◌<◌, ◌≡◌, ◌≢◌, ◌⊎◌, inr, refl, ◌∙◌, Bool, false, ok, ◌>>=◌,
  EndsUnless, reached, EndsUnless-bind, arith, ◌==◌, ==_iff, if_true, if_false, update, ℕ_discrete,
}
use simple_os_dev_projs.FileSystem.Disk.{block_size, Block, Disk, Device, block_write}
use simple_os_dev_projs.FileSystem.Inode.{no_ref, block_ptr, set_block_ptr, inode_offset}
use simple_os_dev_projs.FileSystem.Inode.Reading.{home_of, get_block-ok, block_of_inode-quotient}
use simple_os_dev_projs.FileSystem.Path.Tree.{child, Linked, inode_rounds}
use simple_os_dev_projs.FileSystem.Dirs.{Retstat, success}
use simple_os_dev_projs.FileSystem.Unlink.{remove_ref, erase_inode, erase_file, unlink_entry}
use simple_os_dev_projs.FileSystem.Unlink.Refs.{
  Kept, Loud, Stops, clear_blocks-Cleared, entry_freed, entry_freed-Kept, entry_freed-zero,
  clear_inode_entry-freed,
}

-- The first entry of a directory that names an inode.
pub record FirstRef (inumb o : ℕ) (dir : Block) : Type 0 where
  pub slot : ℕ
  pub in_range : slot < 10
  pub names_it : block_ptr o slot dir ≡ inumb
  pub none_before : (j : ℕ) → j < slot → block_ptr o j dir ≢ inumb

differs_test : (a b : ℕ) → a ≢ b → (a == b) ≡ false
differs_test a b h = ground (arith, h)

remove_ref-from :
    (inumb o : ℕ) (dir : Block) (k i slot : ℕ)
    → i ≤ slot
    → slot < i + k
    → block_ptr o slot dir ≡ inumb
    → ((j : ℕ) → j < slot → block_ptr o j dir ≢ inumb)
    → remove_ref inumb o dir k i ≡ ok (set_block_ptr o slot no_ref dir)
unfolding remove_ref
remove_ref-from inumb o dir zero i slot le less e before = absurd (omega arith)
remove_ref-from inumb o dir (suc k) i slot le less e before = elim (ℕ_discrete i slot) [
  | yes here ↦ rw here (if_true _ _ _ ((==_iff _ _).1 e))
  | no later ↦
      if_false _ _ _ (differs_test _ _ (before i (omega (arith, later))))
      ∙ remove_ref-from inumb o dir k (suc i) slot (omega (arith, later)) (omega arith) e before
]

remove_ref-FirstRef :
    (inumb o : ℕ) (dir : Block) (r : FirstRef inumb o dir)
    → remove_ref inumb o dir 10 0 ≡ ok (set_block_ptr o r.slot no_ref dir)
remove_ref-FirstRef inumb o dir r =
    let less = r.in_range in
    remove_ref-from inumb o dir 10 0 r.slot (omega arith) (omega arith) r.names_it r.none_before

-- The disk at the end: that of a disk on which the inodes are as in `d`, with the inode's block as it
-- was read at first, the inode in it zeroed, and the entry of the inode in its map free.
pub record Erased (inumb : ℕ) (b : Block) (d : Disk) (r : Retstat × Disk) : Type 0 where
  pub reports : r.0 ≡ success
  pub cleared : Disk
  pub kept : Kept d cleared
  pub freed : cleared (inumb / block_size) (inumb % block_size) ≡ 0
  pub written : r.1 ≡ update cleared (home_of inumb) (erase_inode (inode_offset inumb) b)

module _ (g : ℕ) (dev : Device) (reads : (n : ℕ) → dev.read_fails n ≡ false)
    (writes : (n : ℕ) → dev.write_fails n ≡ false) (junk : ℕ → Bool)
    (rounds : inode_rounds ≤ g) where
  erase_file-Erased :
      (inumb : ℕ) (b : Block) (d : Disk)
      → inumb < 5000
      → ((j : ℕ)
          → j < 10
          → (block_ptr (inode_offset inumb) j b ≡ no_ref)
            ⊎ (block_ptr (inode_offset inumb) j b < 5000))
      → Stops (inode_offset inumb) b 10 0 false
      → EndsUnless
          (Loud junk (inode_offset inumb) b)
          (Erased inumb b d)
          (erase_file g dev junk inumb (inumb / 4) b d)
  unfolding erase_file block_write
  erase_file-Erased inumb b d less small stops =
      rw (clear_inode_entry-freed g dev inumb d reads writes rounds less) (
        EndsUnless-bind
          (clear_blocks-Cleared g dev reads writes junk rounds (inode_offset inumb) b 10 0 false
            (entry_freed inumb d) (omega arith) small stops)
          (λ u c. rw (writes (home_of inumb)) (
            reached (record {
              reports = refl;
              cleared = u;
              kept = λ m le. c.kept m le ∙ entry_freed-Kept inumb d less m le;
              freed = c.zeros (inumb / block_size) (inumb % block_size) (entry_freed-zero inumb d);
              written = refl;
            }))))

  pub unlink_entry-Erased :
      (inumb p : ℕ) (d : Disk)
      → inumb < 5000
      → p < 5000
      → Linked d
      → (gap : ℕ) → gap < 10
      → child d inumb gap ≡ no_ref
      → (r : FirstRef inumb (inode_offset p) (d (home_of p)))
      → EndsUnless
          (Loud junk (inode_offset inumb) (d (home_of inumb)))
          (Erased inumb
            (d (home_of inumb))
            (update d (home_of p) (set_block_ptr (inode_offset p) r.slot no_ref (d (home_of p)))))
          (unlink_entry g dev junk inumb p d)
  unfolding unlink_entry block_write
  unlink_entry-Erased inumb p d less less_p linked gap range e r =
      rw
        (
          get_block-ok g dev inumb d (omega arith) (omega arith) (reads (home_of inumb)),
          block_of_inode-quotient g inumb (omega arith) (omega arith),
          get_block-ok g dev p d (omega arith) (omega arith) (reads (home_of p)),
          block_of_inode-quotient g p (omega arith) (omega arith),
        )
        (rw (remove_ref-FirstRef inumb (inode_offset p) (d (home_of p)) r) (
          rw (writes (home_of p), ◌>>=◌)
            (erase_file-Erased inumb (d (home_of inumb)) _ less
              (λ j below. linked inumb j less below) (inr (gap, omega arith, omega arith, e)))))
