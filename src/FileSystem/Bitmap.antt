-- ===== src/FileSystem/Bitmap.antt =====
-- The byte maps of Simple_File_System/src/sfs.c: where an entry lies, getFreeBitMapEntry,
-- getBitmapBlock and clearDataBlock.
pub mod Position
pub mod Alloc
pub mod Clear
pub mod Frame
use simple_os_dev_projs.Base.{
  ℕ, zero, suc, ◌+◌, ◌-◌, ◌*◌, ◌%◌, Option, none, some, Run, ok, fault, spent, ◌>>=◌, ◌==◌, ltb,
  leb, if◌then◌else◌, update,
}
use simple_os_dev_projs.FileSystem.Disk.{
  block_size, int_end, Block, Disk, Device, block_read, block_write,
}

-- The loop of lines 140, 367 and 558.
unfoldable pub find_block : ℕ → (bytes block : ℕ) → Run ℕ
find_block zero bytes block = spent
find_block (suc f) bytes block =
    let rest = find_block f bytes (suc block) in
    if ltb bytes (block_size * block) then ok (block - 1) else rest

-- `sizeof(inode)`.
abbrev pub inode_size : ℕ
inode_size = 128

-- getBlockNumbfromInodeNumb.
unfoldable pub get_block_numb : ℕ → ℕ → Run ℕ
get_block_numb f inumb = find_block f (inode_size * inumb) 1

-- findBlockForBitmap, whose argument is an int: a negative one gives block 0, and for one in the last
-- block of the range the product in the loop leaves it.
unfoldable pub find_block_for_bitmap : ℕ → ℕ → Run ℕ
find_block_for_bitmap f bitmap_numb =
    let found = find_block f bitmap_numb 1 in
    if leb int_end bitmap_numb
    then ok 0
    else (if leb (int_end - block_size) bitmap_numb then fault else found)

-- `-1`, or the entry that was found.
pub data Answer : Type 0 where
  failed : Answer
  entry : ℕ → Answer

-- The block that the loop holds, with its number: `currBlock` and `temp`.
abbrev pub Held : Type 0
Held = Option (ℕ × Block)

-- Lines 376 to 388.
unfoldable pub fetch : Device → (offset block_in : ℕ) → Held → Disk → Option Block
fetch dev offset block_in none d = block_read dev (offset + block_in) d
fetch dev offset block_in (some (n, b)) d =
    if block_in == n then some b else block_read dev (offset + block_in) d

-- Lines 396 to 400.
unfoldable pub next_position : ℕ → ℕ
next_position pos = if pos == 4999 then 1 else suc pos

-- Lines 405 and 412 to 419.
unfoldable pub mark_entry : Device → (offset block_in pos : ℕ) → Block → Disk → Answer × Disk
mark_entry dev offset block_in pos temp d =
    elim (block_write dev (offset + block_in) (update temp (pos % block_size) 1) d) [
      | none ↦ (failed, d)
      | some d' ↦ (entry pos, d')
    ]

-- The loop of line 364; `g` are the rounds of the loop inside.
unfoldable pub search_entry :
    (g f : ℕ) → Device → (offset : ℕ) → Disk → (pos : ℕ) → Held → Run (Answer × Disk)
search_entry g zero dev offset d pos held = spent
search_entry g (suc f) dev offset d pos held = do
  block_in ← find_block g pos 1
  (elim (fetch dev offset block_in held d) [
    | none ↦ ok (failed, d)
    | some temp ↦
        let rest = search_entry g f dev offset d (next_position pos) (some (block_in, temp)) in
        if temp (pos % block_size) == 1
        then rest
        else ok (mark_entry dev offset block_in pos temp d)
  ])

-- Lines 355 to 361.
unfoldable pub map_offset : ℕ → ℕ
map_offset type = if type == 0 then 0 else 10

-- getFreeBitMapEntry; `start` is `rand() % 5000`.
unfoldable pub get_free_bitmap_entry :
    (g f : ℕ) → Device → (type start : ℕ) → Disk → Run (Answer × Disk)
get_free_bitmap_entry g f dev type start d = search_entry g f dev (map_offset type) d start none

-- getBitmapBlock.
unfoldable pub get_bitmap_block : ℕ → Device → (bitmap_numb type : ℕ) → Disk → Run (Option Block)
get_bitmap_block g dev bitmap_numb type d = do
  block_in ← find_block_for_bitmap g bitmap_numb
  ok (block_read dev ((if type == 1 then 10 else 0) + block_in) d)

-- How clearDataBlock ends: with -1, or behind its last statement, without a return.
pub data Ending : Type 0 where
  minus_one no_return : Ending

-- Lines 597 to 618, with the block that was read.
unfoldable pub clear_entry : Device → (block_num : ℕ) → Block → Disk → Ending × Disk
clear_entry dev block_num block d =
    elim (block_write dev block_num (update block (block_num % block_size) 0) d) [
      | none ↦ (minus_one, d)
      | some d1 ↦ elim (block_write dev block_num (λ i. 0) d1) [
        | none ↦ (minus_one, d1)
        | some d2 ↦ (no_return, d2)
      ]
    ]

-- clearDataBlock.
unfoldable pub clear_data_block : ℕ → Device → (data_block_num : ℕ) → Disk → Run (Ending × Disk)
clear_data_block g dev data_block_num d = do
  block_num ← find_block_for_bitmap g data_block_num
  read ← get_bitmap_block g dev data_block_num 1 d
  (elim read [ none ↦ fault | some block ↦ ok (clear_entry dev block_num block d) ])
