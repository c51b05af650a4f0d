-- ===== src/FileSystem/Unlink.antt =====
-- sfs_unlink of Simple_File_System/src/sfs.c.
pub mod Refs
pub mod Entry
pub mod Left
pub mod Freed
use simple_os_dev_projs.Base.{
  ℕ, zero, suc, ◌+◌, ◌%◌, Bool, true, false, ◌&&◌, Option, none, some, Run, ok, exited, fault,
  ◌>>=◌, ◌==◌, ltb, leb, if◌then◌else◌, update,
}
use simple_os_dev_projs.FileSystem.Disk.{block_size, Block, Disk, Device, block_write}
use simple_os_dev_projs.FileSystem.Bitmap.{
  minus_one, no_return, inode_size, find_block_for_bitmap, get_bitmap_block, clear_data_block,
}
use simple_os_dev_projs.FileSystem.Inode.{
  no_ref, block_ptr, set_block_ptr, inode_offset, block_of_inode, get_block_by_inode_numb,
}
use simple_os_dev_projs.FileSystem.Path.{get_inode_numb_from_path}
use simple_os_dev_projs.FileSystem.Dirs.{Retstat, success, failure}
use simple_os_dev_projs.FileSystem.Create.{Text, substring, find_slash}

-- The loop of line 658 with `k` rounds to go from entry `i`. Where it finds nothing the code goes on
-- to `block_ptr_indirect[0]`, a pointer that was read from the disk and points to nothing.
unfoldable pub remove_ref : (inumb o : ℕ) → (dir : Block) → (k i : ℕ) → Run Block
remove_ref inumb o dir zero i = fault
remove_ref inumb o dir (suc k) i =
    let rest = remove_ref inumb o dir k (suc i) in
    if block_ptr o i dir == inumb then ok (set_block_ptr o i no_ref dir) else rest

-- The loop of line 729 with `k` rounds to go from entry `i`; after it, where no entry was -1, the
-- code follows `block_ptr_indirect[0]`. clearDataBlock comes to its end without a return, and the
-- value that line 733 compares is then undetermined: `is_minus_one i` says what it is for entry `i`.
unfoldable pub clear_blocks :
    ℕ
    → Device
    → (is_minus_one : ℕ → Bool) → (o : ℕ) → (inode1 : Block) → (k i : ℕ) → (done : Bool) → Disk
    → Run Disk
clear_blocks g dev is_minus_one o inode1 zero i true d = ok d
clear_blocks g dev is_minus_one o inode1 zero i false d = fault
clear_blocks g dev is_minus_one o inode1 (suc k) i done d = elim (block_ptr o i inode1 == no_ref) [
  | true ↦ clear_blocks g dev is_minus_one o inode1 k (suc i) true d
  | false ↦ do
    r ← clear_data_block g dev (block_ptr o i inode1) d
    (elim r.0 [
      | minus_one ↦ exited
      | no_return ↦ elim (is_minus_one i) [
        | true ↦ exited
        | false ↦ clear_blocks g dev is_minus_one o inode1 k (suc i) done r.1
      ]
    ])
]

-- `memset(inode1, 0, sizeof(inode))`.
unfoldable pub erase_inode : (o : ℕ) → Block → Block
erase_inode o b i = if leb o i && ltb i (o + inode_size) then 0 else b i

-- Lines 704 to 722; nothing where a read or write fails.
unfoldable pub clear_inode_entry : ℕ → Device → (inumb : ℕ) → Disk → Run (Option Disk)
clear_inode_entry g dev inumb d = do
  read ← get_bitmap_block g dev inumb 0 d
  (elim read [
    | none ↦ ok none
    | some bitmap_block ↦ do
      block_in ← find_block_for_bitmap g inumb
      ok (block_write dev block_in (update bitmap_block (inumb % block_size) 0) d)
  ])

-- Lines 704 to 787, with the inode's block as it was read at line 643.
unfoldable pub erase_file :
    ℕ
    → Device
    → (is_minus_one : ℕ → Bool) → (inumb inode_block_numb : ℕ) → (inode_block : Block) → Disk
    → Run (Retstat × Disk)
erase_file g dev is_minus_one inumb inode_block_numb inode_block d = do
  cleared ← clear_inode_entry g dev inumb d
  (elim cleared [
    | none ↦ ok (failure, d)
    | some d1 ↦ do
      d2 ← clear_blocks g dev is_minus_one (inode_offset inumb) inode_block 10 0 false d1
      (elim (block_write dev (20 + inode_block_numb) (erase_inode (inode_offset inumb) inode_block)
          d2) [ none ↦ ok (failure, d2) | some d3 ↦ ok (success, d3) ])
  ])

-- Lines 641 to 787.
unfoldable pub unlink_entry :
    ℕ → Device → (is_minus_one : ℕ → Bool) → (inumb dir_inumb : ℕ) → Disk → Run (Retstat × Disk)
unlink_entry g dev is_minus_one inumb dir_inumb d = do
  inode_block ← get_block_by_inode_numb g dev inumb d
  inode_block_numb ← block_of_inode g inumb
  dir ← get_block_by_inode_numb g dev dir_inumb d
  dir_block_numb ← block_of_inode g dir_inumb
  dir' ← remove_ref inumb (inode_offset dir_inumb) dir 10 0
  (elim (block_write dev (20 + dir_block_numb) dir' d) [
    | none ↦ ok (failure, d)
    | some d1 ↦ erase_file g dev is_minus_one inumb inode_block_numb inode_block d1
  ])

-- Line 789, `free(inode1)`, which is undefined where the inode is not the first of its block.
unfoldable pub free_inode : (inumb : ℕ) → Retstat × Disk → Run (Retstat × Disk)
free_inode inumb (failure, d) = ok (failure, d)
free_inode inumb (success, d) = if inode_offset inumb == 0 then ok (success, d) else fault

-- sfs_unlink.
unfoldable pub sfs_unlink :
    ℕ → Device → (is_minus_one : ℕ → Bool) → (path : Text) → Disk → Run (Retstat × Disk)
sfs_unlink g dev is_minus_one path d = do
  i ← find_slash path
  inumb ← get_inode_numb_from_path g dev path.chars d
  dir_inumb ← get_inode_numb_from_path g dev (substring path 0 i) d
  r ← unlink_entry g dev is_minus_one inumb dir_inumb d
  free_inode inumb r
