-- ===== src/FileSystem/Tests/Changes.antt =====
-- Runs of sfs_create on a small disk.
use simple_os_dev_projs.Base.{ℕ, ◌<◌, ◌≡◌, refl, none, some, ok, arith, update}
use simple_os_dev_projs.FileSystem.Disk.{Disk, block_read, block_write}
use simple_os_dev_projs.FileSystem.Bytes.{load}
use simple_os_dev_projs.FileSystem.Bitmap.{
  entry, find_block, fetch, mark_entry, search_entry, map_offset, get_free_bitmap_entry,
}
use simple_os_dev_projs.FileSystem.Inode.{block_ptr, inode_offset}
use simple_os_dev_projs.FileSystem.Inode.Reading.{home_of}
use simple_os_dev_projs.FileSystem.Path.{add_token, split, tokens, walk, get_inode_numb_from_path}
use simple_os_dev_projs.FileSystem.Path.Tree.{inode_rounds}
use simple_os_dev_projs.FileSystem.Create.{
  Draws, Fs, strlen, char_at, copy_bytes, c_string, substring, last_slash, find_slash,
  open_child_space,
}
use simple_os_dev_projs.FileSystem.Create.Writes.{Steps}
use simple_os_dev_projs.FileSystem.Create.Placed.{Placed}
use simple_os_dev_projs.FileSystem.Tests.Data.{steady, tree, text_a}

abbrev tree_fs : Fs
tree_fs = record { disk = tree 5 0; inodes_used = 2; blocks_used = 1 }

abbrev draws : (inode_start : ℕ) → Draws
draws n = record { now = 1000; inode_start = n; data_start = 3 }

abbrev with_inode : (n : ℕ) → Disk
with_inode n = update (tree 5 0) 0 (update (tree 5 0 0) n 1)

abbrev with_block : (n : ℕ) → Disk
with_block n = update (with_inode n) 10 (update (with_inode n 10) 3 1)

-- The root's entries but the first are free.
root_space : open_child_space (inode_offset 0) (tree 5 0 (home_of 0)) 10 0 none ≡ some 9
unfolding open_child_space block_ptr load inode_offset
root_space = refl

pub root_found :
    get_inode_numb_from_path inode_rounds steady (substring text_a 0 0) (tree 5 0) ≡ ok 0
unfolding get_inode_numb_from_path walk tokens add_token split substring copy_bytes c_string
root_found = refl

pub slash_first : find_slash text_a ≡ ok 0
unfolding find_slash last_slash strlen char_at
slash_first = refl

-- A run of sfs_create of /a whose searches find inode `n` and data block 3.
abbrev steps_at :
    (n : ℕ)
    → n < 5000
    → get_free_bitmap_entry inode_rounds inode_rounds steady 0 n (tree 5 0)
      ≡ ok (entry n, with_inode n)
    → get_free_bitmap_entry inode_rounds inode_rounds steady 1 3 (with_inode n)
      ≡ ok (entry 3, with_block n)
    → Steps inode_rounds inode_rounds steady (draws n) text_a tree_fs
steps_at n small inode_found data_found = record {
  slash_at = 0;
  dir_inumb = 0;
  slot = 9;
  new_inumb = n;
  data_block = 3;
  inode_taken = with_inode n;
  data_taken = with_block n;
  not_full = refl;
  slash_found = slash_first;
  dir_found = root_found;
  dir_small = omega arith;
  slot_free = root_space;
  inode_found = inode_found;
  new_small = small;
  data_small = omega arith;
  data_found = data_found;
}

-- Inode 9 lies in block 22.
far_inode :
    get_free_bitmap_entry inode_rounds inode_rounds steady 0 9 (tree 5 0)
    ≡ ok (entry 9, with_inode 9)
unfolding get_free_bitmap_entry search_entry find_block fetch block_read mark_entry block_write
    map_offset
far_inode = refl

far_data :
    get_free_bitmap_entry inode_rounds inode_rounds steady 1 3 (with_inode 9)
    ≡ ok (entry 3, with_block 9)
unfolding get_free_bitmap_entry search_entry find_block fetch block_read mark_entry block_write
    map_offset
far_data = refl

abbrev steps_far : Steps inode_rounds inode_rounds steady (draws 9) text_a tree_fs
steps_far = steps_at 9 (omega arith) far_inode far_data
