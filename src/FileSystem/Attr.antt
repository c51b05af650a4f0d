-- ===== src/FileSystem/Attr.antt =====
-- sfs_getattr of Simple_File_System/src/sfs.c.
pub mod Blocks
use simple_os_dev_projs.Base.{
  ℕ, zero, suc, ◌+◌, ◌*◌, Bool, true, false, ◌||◌, List, Option, none, some, Run, ok, fault, spent,
  ◌>>=◌, ◌==◌, ltb, leb, if◌then◌else◌,
}
use simple_os_dev_projs.FileSystem.Disk.{block_size, int_end, Block, Disk, Device}
use simple_os_dev_projs.FileSystem.Bytes.{load}
use simple_os_dev_projs.FileSystem.Inode.{
  at_state, at_uid, at_size, at_time, at_ctime, at_mtime, at_owner, at_group, no_ref, letter_d,
  letter_f, inode_offset, get_block_by_inode_numb,
}
use simple_os_dev_projs.FileSystem.Path.{get_inode_numb_from_path}

-- The members of `struct stat` that are set.
pub record Stat : Type 0 where
  pub st_ino : ℕ
  pub st_mode : ℕ
  pub st_nlink : ℕ
  pub st_uid : ℕ
  pub st_gid : ℕ
  pub st_rdev : ℕ
  pub st_size : ℕ
  pub st_blocks : ℕ
  pub st_atime : ℕ
  pub st_mtime : ℕ
  pub st_ctime : ℕ

-- `BLOCK_SIZE * num_blocks > size` on ints.
unfoldable pub is_past : (num_blocks size : ℕ) → Bool
is_past num_blocks size = leb int_end size || ltb size (block_size * num_blocks)

-- The loop of line 289, whose product may leave the range of int.
unfoldable pub count_blocks : ℕ → (size num_blocks : ℕ) → Run ℕ
count_blocks zero size num_blocks = spent
count_blocks (suc f) size num_blocks =
    let rest = count_blocks f size (suc num_blocks) in
    if leb int_end (block_size * num_blocks)
    then fault
    else (if is_past num_blocks size then ok num_blocks else rest)

-- `S_IFDIR | 0755`.
abbrev pub dir_mode : ℕ
dir_mode = 16877

-- `S_IFREG | 0444`.
abbrev pub file_mode : ℕ
file_mode = 33060

-- Lines 275 to 281: the mode and the number of links, which stay what they are for other states.
unfoldable pub mode_and_links : (state : ℕ) → Stat → ℕ × ℕ
mode_and_links state old =
    if state == letter_d
    then (dir_mode, 2)
    else (if state == letter_f then (file_mode, 1) else (old.st_mode, old.st_nlink))

-- Lines 274 to 299, for the inode at byte `o` of `b`.
unfoldable pub fill_stat : (b : Block) → (o num_blocks : ℕ) → Stat → Stat
fill_stat b o num_blocks old =
    let kind = mode_and_links (b (o + at_state)) old in
    record {
      st_ino = load 4 b (o + at_uid);
      st_mode = kind.0;
      st_nlink = kind.1;
      st_uid = load 4 b (o + at_owner);
      st_gid = load 4 b (o + at_group);
      st_rdev = 0;
      st_size = load 4 b (o + at_size);
      st_blocks = num_blocks;
      st_atime = load 8 b (o + at_time);
      st_mtime = load 8 b (o + at_mtime);
      st_ctime = load 8 b (o + at_ctime);
    }

-- sfs_getattr; nothing for the result -1. `f` are the rounds of the loop over blocks.
unfoldable pub sfs_getattr :
    (g f : ℕ) → Device → (path : List ℕ) → (statbuf : Stat) → Disk → Run (Option Stat)
sfs_getattr g f dev path statbuf d = do
  correct_inumb ← get_inode_numb_from_path g dev path d
  (elim (correct_inumb == no_ref) [
    | true ↦ ok none
    | false ↦ do
      temp2 ← get_block_by_inode_numb g dev correct_inumb d
      num_blocks ← count_blocks f (load 4 temp2 (inode_offset correct_inumb + at_size)) 1
      ok (some (fill_stat temp2 (inode_offset correct_inumb) num_blocks statbuf))
  ])
