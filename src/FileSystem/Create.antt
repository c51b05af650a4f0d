-- ===== src/FileSystem/Create.antt =====
-- substring and sfs_create of Simple_File_System/src/sfs.c.
pub mod Fill
pub mod Name
pub mod Slot
pub mod Writes
pub mod Placed
pub mod Succeeds
pub mod Lost
use simple_os_dev_projs.Base.{
  ℕ, zero, suc, ◌+◌, ◌-◌, Bool, true, false, Option, none, some, List, [], ◌∷◌, Run, ok, fault,
  ◌>>=◌, ◌==◌, if◌then◌else◌, update,
}
use simple_os_dev_projs.FileSystem.Disk.{Block, Disk, Device, block_write}
use simple_os_dev_projs.FileSystem.Bitmap.{failed, entry, get_free_bitmap_entry}
use simple_os_dev_projs.FileSystem.Bytes.{store}
use simple_os_dev_projs.FileSystem.Inode.{
  at_mode, at_state, at_name, at_uid, at_links, at_flag, at_time, at_ctime, at_mtime, no_ref,
  letter_f, letter_o, block_ptr, set_block_ptr, no_refs, no_indirect, inode_offset, block_of_inode,
  get_block_by_inode_numb,
}
use simple_os_dev_projs.FileSystem.Path.{slash, get_inode_numb_from_path}
use simple_os_dev_projs.FileSystem.Dirs.{Retstat, success, failure}

-- A C string where it lies: the byte before it, the characters, the NUL, and what comes after.
pub record Text : Type 0 where
  pub before : ℕ
  pub chars : List ℕ
  pub after : ℕ → ℕ

unfoldable pub strlen : List ℕ → ℕ
strlen [] = 0
strlen (c ∷ cs) = suc (strlen cs)

-- The bytes from the first character on.
unfoldable pub char_at : List ℕ → (after : ℕ → ℕ) → ℕ → ℕ
char_at [] after zero = 0
char_at [] after (suc i) = after i
char_at (c ∷ cs) after zero = c
char_at (c ∷ cs) after (suc i) = char_at cs after i

-- `string[i - 1]`.
unfoldable pub byte_before : Text → ℕ → ℕ
byte_before t zero = t.before
byte_before t (suc i) = char_at t.chars t.after i

-- The loop of line 336: `length` bytes, the first of them `string[position - 1]`.
unfoldable pub copy_bytes : Text → (position length : ℕ) → List ℕ
copy_bytes t position zero = []
copy_bytes t position (suc length) = byte_before t position ∷ copy_bytes t (suc position) length

-- The string that starts here: the bytes up to the first NUL.
unfoldable pub c_string : List ℕ → List ℕ
c_string [] = []
c_string (c ∷ cs) = let rest = c_string cs in if c == 0 then [] else c ∷ rest

-- substring, as the string that its result is.
unfoldable pub substring : Text → (position length : ℕ) → List ℕ
substring t position length = c_string (copy_bytes t position length)

-- The loop of line 452, from index `i`; without a slash it leaves the string.
unfoldable pub last_slash : Text → (i : ℕ) → Run ℕ
last_slash t zero = if char_at t.chars t.after 0 == slash then ok 0 else fault
last_slash t (suc i) =
    let rest = last_slash t i in
    if char_at t.chars t.after (suc i) == slash then ok (suc i) else rest

-- The same loop from `pathlen - 1`.
unfoldable pub find_slash : Text → Run ℕ
find_slash t = elim (strlen t.chars) [ zero ↦ fault | suc n ↦ last_slash t n ]

-- The loop of line 469 with `k` rounds to go from entry `i`.
unfoldable pub open_child_space :
    (o : ℕ) → (dir : Block) → (k i : ℕ) → (space : Option ℕ) → Option ℕ
open_child_space o dir zero i space = space
open_child_space o dir (suc k) i space =
    open_child_space o dir k (suc i) (if block_ptr o i dir == no_ref then some i else space)

unfoldable pub strcpy : (i : ℕ) → List ℕ → Block → Block
strcpy i [] b = update b i 0
strcpy i (c ∷ cs) b = strcpy (suc i) cs (update b i c)

-- Lines 504 to 516.
unfoldable pub fill_rest : (o now : ℕ) → Block → Block
fill_rest o now b = no_indirect o (
    no_refs 10 o 0 (
      store 8 (o + at_mtime) now
        (store 8 (o + at_time) now (store 8 (o + at_ctime) now (update b (o + at_flag) letter_o)))))

-- Lines 499 to 516, at byte `o` of the block.
unfoldable pub fill_inode : (o mode : ℕ) → (name : List ℕ) → (inumb now : ℕ) → Block → Block
fill_inode o mode name inumb now b = fill_rest o now (
    store 2 (o + at_links) 1 (
      store 4 (o + at_uid) inumb (
        strcpy (o + at_name) name (update (store 4 (o + at_mode) mode b) (o + at_state) letter_f))))

-- The disk and the counters numOccupiedInodeBytemap and numOccupiedDataBlocksBytemap.
pub record Fs : Type 0 where
  pub disk : Disk
  pub inodes_used : ℕ
  pub blocks_used : ℕ

-- What the system gives a call: the time, and two draws of `rand() % 5000`.
pub record Draws : Type 0 where
  pub now : ℕ
  pub inode_start : ℕ
  pub data_start : ℕ

-- Lines 532 to 552, where `dir` and `temp` are the blocks of the directory and of the new inode.
unfoldable pub write_created :
    ℕ → Device → (dir_inumb new_inumb : ℕ) → (dir temp : Block) → Fs → Run (Retstat × Fs)
write_created g dev dir_inumb new_inumb dir temp fs = do
  dir_block_numb ← block_of_inode g dir_inumb
  (elim (block_write dev (20 + dir_block_numb) dir fs.disk) [
    | none ↦ ok (failure, fs)
    | some d1 ↦ do
      new_block_numb ← block_of_inode g new_inumb
      (elim (block_write dev (20 + new_block_numb) temp d1) [
        | none ↦ ok (failure, record fs { disk = d1 })
        | some d2 ↦ ok (success, record fs { disk = d2 })
      ])
  ])

-- Lines 489 to 530. The new inode is put at the offset of the directory's.
unfoldable pub give_block :
    (g f : ℕ)
    → Device
    → Draws
    → (mode : ℕ) → (name : List ℕ) → (dir_inumb slot new_inumb : ℕ) → (dir : Block) → Fs
    → Run (Retstat × Fs)
give_block g f dev w mode name dir_inumb slot new_inumb dir fs = do
  temp ← get_block_by_inode_numb g dev new_inumb fs.disk
  r ← get_free_bitmap_entry g f dev 1 w.data_start fs.disk
  let fs1 = record fs { disk = r.1; blocks_used = suc fs.blocks_used }
  let o = inode_offset dir_inumb
  (elim r.0 [
    | failed ↦ ok (failure, fs1)
    | entry datablock_numb ↦
        write_created g dev dir_inumb new_inumb (set_block_ptr o slot new_inumb dir)
          (set_block_ptr o 0 datablock_numb (fill_inode o mode name new_inumb w.now temp)) fs1
  ])

-- Lines 481 to 487.
unfoldable pub take_inode :
    (g f : ℕ)
    → Device
    → Draws
    → (mode : ℕ) → (name : List ℕ) → (dir_inumb slot : ℕ) → (dir : Block) → Fs
    → Run (Retstat × Fs)
take_inode g f dev w mode name dir_inumb slot dir fs = do
  r ← get_free_bitmap_entry g f dev 0 w.inode_start fs.disk
  let fs1 = record fs { disk = r.1; inodes_used = suc fs.inodes_used }
  (elim r.0 [
    | failed ↦ ok (failure, fs1)
    | entry new_inumb ↦ give_block g f dev w mode name dir_inumb slot new_inumb dir fs1
  ])

-- sfs_create.
unfoldable pub sfs_create :
    (g f : ℕ) → Device → Draws → (path : Text) → (mode : ℕ) → Fs → Run (Retstat × Fs)
sfs_create g f dev w path mode fs = elim (fs.inodes_used == 5000) [
  | true ↦ ok (failure, fs)
  | false ↦ do
    i ← find_slash path
    let new_file = substring path (suc i) (strlen path.chars - 1)
    let original_path = substring path 0 i
    dir_inumb ← get_inode_numb_from_path g dev original_path fs.disk
    dir ← get_block_by_inode_numb g dev dir_inumb fs.disk
    (elim (open_child_space (inode_offset dir_inumb) dir 10 0 none) [
      | none ↦ ok (failure, fs)
      | some slot ↦ take_inode g f dev w mode new_file dir_inumb slot dir fs
    ])
]
