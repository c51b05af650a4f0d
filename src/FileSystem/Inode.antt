-- ===== src/FileSystem/Inode.antt =====
-- struct inode of Simple_File_System/src/block.h as the bytes of a block, and
-- getBlockByInodeNumb of sfs.c.
pub mod Reading
pub mod Refs
use simple_os_dev_projs.Base.{
  ℕ, zero, suc, ◌+◌, ◌*◌, ◌%◌, Option, none, some, Run, ok, exited, fault, ◌>>=◌, ltb,
  if◌then◌else◌,
}
use simple_os_dev_projs.FileSystem.Disk.{block_size, Block, Disk, Device, block_read, block_write}
use simple_os_dev_projs.FileSystem.Bitmap.{inode_size, get_block_numb}
use simple_os_dev_projs.FileSystem.Bytes.{load, store}

-- Where the members of an inode lie.
abbrev pub at_mode : ℕ
at_mode = 0

abbrev pub at_state : ℕ
at_state = 4

abbrev pub at_name : ℕ
at_name = 5

abbrev pub at_uid : ℕ
at_uid = 20

abbrev pub at_size : ℕ
at_size = 24

abbrev pub at_links : ℕ
at_links = 28

abbrev pub at_flag : ℕ
at_flag = 30

abbrev pub at_time : ℕ
at_time = 32

abbrev pub at_ctime : ℕ
at_ctime = 40

abbrev pub at_mtime : ℕ
at_mtime = 48

abbrev pub at_owner : ℕ
at_owner = 56

abbrev pub at_group : ℕ
at_group = 60

abbrev pub at_block_ptr : ℕ
at_block_ptr = 64

abbrev pub at_indirect : ℕ
at_indirect = 104

abbrev pub at_double : ℕ
at_double = 120

-- `-1` as an int.
abbrev pub no_ref : ℕ
no_ref = 4294967295

-- The characters that the code stores: the letters d, f and o.
abbrev pub letter_d : ℕ
letter_d = 100

abbrev pub letter_f : ℕ
letter_f = 102

abbrev pub letter_o : ℕ
letter_o = 111

-- `block_ptr[i]` of the inode at byte `o` of a block.
unfoldable pub block_ptr : (o i : ℕ) → Block → ℕ
block_ptr o i b = load 4 b (o + at_block_ptr + 4 * i)

unfoldable pub set_block_ptr : (o i v : ℕ) → Block → Block
set_block_ptr o i v b = store 4 (o + at_block_ptr + 4 * i) v b

-- The loop that sets the entries of `block_ptr` to -1, with `k` rounds to go from entry `i`.
unfoldable pub no_refs : (k : ℕ) → (o i : ℕ) → Block → Block
no_refs zero o i b = b
no_refs (suc k) o i b = no_refs k o (suc i) (set_block_ptr o i no_ref b)

-- `block_ptr_indirect[1]`, `block_ptr_indirect[2]`, which is the member behind the array, and
-- `block_ptr_double_indirect` are set to NULL.
unfoldable pub no_indirect : (o : ℕ) → Block → Block
no_indirect o b =
    store 8 (o + at_double) 0
      (store 8 (o + at_indirect + 8 * 2) 0 (store 8 (o + at_indirect + 8 * 1) 0 b))

-- `offset_in_block`: the byte of its block that an inode starts at.
unfoldable pub inode_offset : ℕ → ℕ
inode_offset inumb = (inode_size * inumb) % block_size

-- From this number on, and so for -1, the loop that looks for the block leaves the range of int.
abbrev pub max_inumb : ℕ
max_inumb = 16777212

-- `block_num` of getBlockByInodeNumb, whose overflow is undefined.
unfoldable pub block_of_inode : ℕ → (inumb : ℕ) → Run ℕ
block_of_inode g inumb = if ltb inumb max_inumb then get_block_numb g inumb else fault

unfoldable pub read_or_exit : Device → ℕ → Disk → Run Block
read_or_exit dev n d = elim (block_read dev n d) [ none ↦ exited | some b ↦ ok b ]

unfoldable pub write_or_exit : Device → ℕ → Block → Disk → Run Disk
write_or_exit dev n b d = elim (block_write dev n b d) [ none ↦ exited | some u ↦ ok u ]

-- getBlockByInodeNumb. The second half of its buffer, into which line 172 reads the same block again,
-- is never looked at, and is left out.
unfoldable pub get_block_by_inode_numb : ℕ → Device → (inumb : ℕ) → Disk → Run Block
get_block_by_inode_numb g dev inumb d = do
  block_num ← block_of_inode g inumb
  first ← read_or_exit dev (20 + block_num) d
  (if ltb (inode_offset (suc inumb)) (inode_offset inumb)
      then read_or_exit dev (20 + block_num) d >>= (λ second. ok first)
      else ok first)
