-- ===== src/FileSystem/Bytes.antt =====
-- How Simple_File_System/src/sfs.c reads and writes the members of a struct in a block: integers of
-- some bytes with the lowest byte first, at a byte of the block.
pub mod Loads
use simple_os_dev_projs.Base.{ℕ, zero, suc, ◌+◌, ◌*◌, ◌/◌, ◌%◌, update}
use simple_os_dev_projs.FileSystem.Disk.{Block}

-- The unsigned integer of `w` bytes at byte `i`.
unfoldable pub load : (w : ℕ) → Block → (i : ℕ) → ℕ
load zero b i = 0
load (suc w) b i = b i + 256 * load w b (suc i)

-- `v`, cut to `w` bytes, is put at byte `i`.
unfoldable pub store : (w : ℕ) → (i v : ℕ) → Block → Block
store zero i v b = b
store (suc w) i v b = update (store w (suc i) (v / 256) b) i (v % 256)
