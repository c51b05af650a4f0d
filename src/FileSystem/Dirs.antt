-- ===== src/FileSystem/Dirs.antt =====
-- sfs_opendir, sfs_readdir and sfs_releasedir of Simple_File_System/src/sfs.c.
pub mod Flag
pub mod Listing
use Prim.Native.Nat.{bit_and}
use simple_os_dev_projs.Base.{
  ℕ, zero, suc, ◌+◌, Bool, true, false, ◌&&◌, ◌||◌, List, Run, ok, ◌>>=◌, ◌==◌, if◌then◌else◌,
  update,
}
use simple_os_dev_projs.FileSystem.Disk.{Block, Disk, Device}
use simple_os_dev_projs.FileSystem.Bytes.{load}
use simple_os_dev_projs.FileSystem.Inode.{
  at_mode, at_state, at_name, at_flag, no_ref, letter_d, letter_o, block_ptr, inode_offset,
  block_of_inode, write_or_exit, get_block_by_inode_numb,
}
use simple_os_dev_projs.FileSystem.Path.{get_inode_numb_from_path, cut_path}

-- The results 0 and -1.
pub data Retstat : Type 0 where
  success : Retstat
  failure : Retstat

-- `S_IRUSR | S_IXUSR`.
abbrev pub read_execute : ℕ
read_execute = 320

-- The condition of line 926.
unfoldable pub may_open : (o : ℕ) → Block → Bool
may_open o b =
    (b (o + at_state) == letter_d)
    && (bit_and (load 4 b (o + at_mode)) read_execute == read_execute)

-- Lines 926 to 936.
unfoldable pub open_inode : (o : ℕ) → Block → Retstat × Block
open_inode o b = if may_open o b then (success, update b (o + at_flag) letter_o) else (failure, b)

-- sfs_opendir; the error code EACCES is left out.
unfoldable pub sfs_opendir : ℕ → Device → (path : List ℕ) → Disk → Run (Retstat × Disk)
sfs_opendir g dev path d = do
  correct_inumb ← get_inode_numb_from_path g dev path d
  temp ← get_block_by_inode_numb g dev correct_inumb d
  block_num ← block_of_inode g correct_inumb
  let r = open_inode (inode_offset correct_inumb) temp
  u ← write_or_exit dev (20 + block_num) r.1 d
  ok (r.0, u)

-- sfs_releasedir.
unfoldable pub sfs_releasedir : ℕ → Device → (path : List ℕ) → Disk → Run (Retstat × Disk)
sfs_releasedir g dev path d = do
  correct_inumb ← get_inode_numb_from_path g dev path d
  temp ← get_block_by_inode_numb g dev correct_inumb d
  block_num ← block_of_inode g correct_inumb
  u ← write_or_exit dev (20 + block_num) (update temp (inode_offset correct_inumb + at_flag) 0) d
  ok (success, u)

-- `filler`: the name as the memory from its first byte, the next offset, and the buffer, which it
-- changes; its result says whether it is not zero.
abbrev pub Filler : Type 0 → Type 0
Filler B = (name : ℕ → ℕ) → (next_offset : ℕ) → B → Bool × B

-- Lines 1014 to 1019.
unfoldable pub next_offset : (o i : ℕ) → Block → ℕ
next_offset o i dir =
    if (i == 9) || (block_ptr o (suc i) dir == no_ref) then no_ref else block_ptr o (suc i) dir

-- Lines 988 to 994: the path that strtok has cut is looked up again.
unfoldable pub open_if_needed :
    ℕ → Device → (path : List ℕ) → (o : ℕ) → (dir : Block) → Disk → Run (Retstat × Disk)
open_if_needed g dev path o dir d =
    if dir (o + at_flag) == letter_o then ok (success, d) else sfs_opendir g dev (cut_path path) d

module _ {B : Type 0} where
  -- The loop of line 998 with `k` rounds to go from entry `i`.
  unfoldable pub fill_entries :
      ℕ → Device → Disk → Filler B → (o : ℕ) → (dir : Block) → (k i : ℕ) → B → Run B
  fill_entries g dev d filler o dir zero i buf = ok buf
  fill_entries g dev d filler o dir (suc k) i buf = elim (block_ptr o i dir == no_ref) [
    | true ↦ ok buf
    | false ↦ do
      temp1 ← get_block_by_inode_numb g dev (block_ptr o i dir) d
      let r =
          filler (λ j. temp1 (inode_offset (block_ptr o i dir) + at_name + j)) (next_offset o i dir)
            buf
      (elim r.0 [ true ↦ ok r.1 | false ↦ fill_entries g dev d filler o dir k (suc i) r.1 ])
  ]

  -- sfs_readdir. It does not look at the offset from which FUSE asks it to list.
  unfoldable pub sfs_readdir :
      ℕ
      → Device
      → (path : List ℕ) → Filler B
      → (offset : ℕ) → (buf : B) → Disk
      → Run (Retstat × (B × Disk))
  sfs_readdir g dev path filler offset buf d = do
    correct_inumb ← get_inode_numb_from_path g dev path d
    temp ← get_block_by_inode_numb g dev correct_inumb d
    r ← open_if_needed g dev path (inode_offset correct_inumb) temp d
    (elim r.0 [
      | failure ↦ ok (failure, (buf, r.1))
      | success ↦ do
        buf' ← fill_entries g dev r.1 filler (inode_offset correct_inumb) temp 10 0 buf
        ok (success, (buf', r.1))
    ])
