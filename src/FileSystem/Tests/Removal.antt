-- ===== src/FileSystem/Tests/Removal.antt =====
-- Runs of sfs_unlink on a small disk.
use simple_os_dev_projs.Base.{ℕ, ◌≡◌, refl, Bool, false, EndsUnless, arith}
use simple_os_dev_projs.FileSystem.Inode.{inode_offset}
use simple_os_dev_projs.FileSystem.Inode.Reading.{home_of}
use simple_os_dev_projs.FileSystem.Path.Tree.{inode_rounds}
use simple_os_dev_projs.FileSystem.Dirs.{success}
use simple_os_dev_projs.FileSystem.Unlink.{unlink_entry}
use simple_os_dev_projs.FileSystem.Unlink.Refs.{Loud}
use simple_os_dev_projs.FileSystem.Unlink.Entry.{FirstRef}
use simple_os_dev_projs.FileSystem.Unlink.Left.{Unlinked, unlink_entry-Unlinked}
use simple_os_dev_projs.FileSystem.Tests.Data.{steady, tree, tree-Linked, tree-unused, tree-first}

-- The values that clearDataBlock leaves are not -1.
abbrev settled : ℕ → Bool
settled i = false

abbrev first_ref : (c : ℕ) → FirstRef c (inode_offset 0) (tree c 0 (home_of 0))
first_ref c = record {
  slot = 0;
  in_range = omega arith;
  names_it = tree-first c 0;
  none_before = λ j less. absurd (omega arith);
}

unlink_entry-Unlinked_example :
    EndsUnless
      (Loud settled (inode_offset 5) (tree 5 0 (home_of 5)))
      (λ x. (x.0 ≡ success) × Unlinked 5 0 0 (tree 5 0) x.1)
      (unlink_entry inode_rounds steady settled 5 0 (tree 5 0))
unlink_entry-Unlinked_example =
    unlink_entry-Unlinked inode_rounds steady settled 5 0 1 (tree 5 0) (λ n. refl) (λ n. refl)
      (omega arith) (omega arith) (omega arith) (tree-Linked 5 0 (omega arith)) (omega arith)
      (tree-unused 5 0 4 1 (omega arith)) (first_ref 5) (omega arith)
