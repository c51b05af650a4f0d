-- ===== src/FileSystem/Tests/Files.antt =====
-- Runs of the operations of sfs.c on small disks.
use simple_os_dev_projs.Base.{ℕ, ◌≡◌, inr, refl, false, none, some, List, [], ◌∷◌, ok, Ends, arith}
use simple_os_dev_projs.FileSystem.Disk.{int_end, Disk}
use simple_os_dev_projs.FileSystem.Bytes.{load}
use simple_os_dev_projs.FileSystem.Inode.{letter_o, no_ref, block_ptr, inode_offset}
use simple_os_dev_projs.FileSystem.Path.{
  add_token, split, tokens, name_is, get_inode_numb_from_path,
}
use simple_os_dev_projs.FileSystem.Path.Tree.{Linked, inode_rounds}
use simple_os_dev_projs.FileSystem.Path.Resolve.{get_inode_numb_from_path-resolve}
use simple_os_dev_projs.FileSystem.Attr.{Stat, sfs_getattr}
use simple_os_dev_projs.FileSystem.Attr.Blocks.{size_of, report, sfs_getattr-report}
use simple_os_dev_projs.FileSystem.Dirs.{
  success, Filler, may_open, sfs_opendir, sfs_releasedir, sfs_readdir,
}
use simple_os_dev_projs.FileSystem.Dirs.Flag.{set_flag, sfs_opendir-opening}
use simple_os_dev_projs.FileSystem.Dirs.Listing.{sfs_readdir-offer}
use simple_os_dev_projs.FileSystem.Create.{Fs}
use simple_os_dev_projs.FileSystem.Init.{disk_open, sfs_init}
use simple_os_dev_projs.FileSystem.Init.Root.{Rooted, sfs_init-Rooted}
use simple_os_dev_projs.FileSystem.Tests.Data.{steady, tree, path_a, tree-Linked}

get_inode_numb_from_path-resolve_example :
    get_inode_numb_from_path inode_rounds steady path_a (tree 5 0) ≡ ok 5
unfolding tokens add_token split block_ptr load inode_offset name_is
get_inode_numb_from_path-resolve_example =
    get_inode_numb_from_path-resolve inode_rounds steady path_a (tree 5 0) (λ n. refl)
      (tree-Linked 5 0 (omega arith)) (omega arith)

-- A disk that was never written.
abbrev empty_disk : Disk
empty_disk n i = 0

abbrev no_stat : Stat
no_stat = record {
  st_ino = 0;
  st_mode = 0;
  st_nlink = 0;
  st_uid = 0;
  st_gid = 0;
  st_rdev = 0;
  st_size = 0;
  st_blocks = 0;
  st_atime = 0;
  st_mtime = 0;
  st_ctime = 0;
}

empty-block_ptr : (o i : ℕ) → block_ptr o i (λ j. 0) ≡ 0
unfolding block_ptr load
empty-block_ptr o i = refl

empty-size : (n : ℕ) → size_of empty_disk n ≡ 0
unfolding load
empty-size n = refl

empty-Linked : Linked empty_disk
empty-Linked inumb i small range = inr (rw (empty-block_ptr (inode_offset inumb) i) (omega arith))

sfs_getattr-report_example :
    sfs_getattr inode_rounds int_end steady (47 ∷ []) no_stat empty_disk
    ≡ ok (report empty_disk no_stat (some 0))
unfolding tokens add_token split
sfs_getattr-report_example =
    sfs_getattr-report inode_rounds int_end steady (47 ∷ []) no_stat empty_disk (λ n. refl)
      empty-Linked (λ n less. rw (empty-size n) (omega arith)) (omega arith) (omega arith)

sfs_opendir-opening_example :
    (sfs_opendir inode_rounds steady (47 ∷ []) (tree 5 0)
      ≡ ok (success, set_flag 0 letter_o (tree 5 0)))
    × (sfs_releasedir inode_rounds steady (47 ∷ []) (tree 5 0)
        ≡ ok (success, set_flag 0 0 (tree 5 0)))
unfolding tokens add_token split may_open load inode_offset
sfs_opendir-opening_example =
    sfs_opendir-opening inode_rounds steady (47 ∷ []) (tree 5 0) (λ n. refl) (λ n. refl)
      (tree-Linked 5 0 (omega arith)) (omega arith)

-- A filler that keeps the offsets it was given.
abbrev keep : Filler (List ℕ)
keep name next_offset buf = (false, next_offset ∷ buf)

sfs_readdir-offer_example :
    sfs_readdir inode_rounds steady (47 ∷ []) keep 0 [] (tree 5 111)
    ≡ ok (success, (no_ref ∷ [], tree 5 111))
unfolding tokens add_token split block_ptr load inode_offset
sfs_readdir-offer_example =
    sfs_readdir-offer inode_rounds steady (47 ∷ []) keep 0 [] 0 (tree 5 111) (λ n. refl)
      (tree-Linked 5 111 (omega arith)) (omega arith) refl refl

abbrev new_fs : Fs
new_fs = record { disk = empty_disk; inodes_used = 7; blocks_used = 7 }

sfs_init-Rooted_example :
    Ends
      (λ r. (r.0 ≡ some 3) × Rooted empty_disk r.1)
      (sfs_init steady (some 3) none 1000 (λ i. 9) (λ i. 9) new_fs)
unfolding disk_open
sfs_init-Rooted_example =
    sfs_init-Rooted steady (some 3) none (some 3) 1000 (λ i. 9) (λ i. 9) new_fs refl refl refl
