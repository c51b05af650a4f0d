-- ===== src/FileSystem/Disk.antt =====
-- block_read and block_write of Simple_File_System/src/block.c.
use simple_os_dev_projs.Base.{ℕ, Bool, Option, none, some, if◌then◌else◌, update}

-- BLOCK_SIZE.
abbrev pub block_size : ℕ
block_size = 512

-- From here on an int is out of range, or its bits are those of a negative one.
abbrev pub int_end : ℕ
int_end = 2147483648

abbrev pub Block : Type 0
Block = ℕ → ℕ

-- The disk file; a block that has never been written reads as zeros.
abbrev pub Disk : Type 0
Disk = ℕ → Block

-- Which calls of pread and pwrite fail.
pub record Device : Type 0 where
  pub read_fails : ℕ → Bool
  pub write_fails : ℕ → Bool

-- `block_read(n, buf) < 0`, or the content of `buf`.
unfoldable pub block_read : Device → ℕ → Disk → Option Block
block_read dev n d = if dev.read_fails n then none else some (d n)

-- `block_write(n, buf) != BLOCK_SIZE`, or the disk.
unfoldable pub block_write : Device → ℕ → Block → Disk → Option Disk
block_write dev n b d = if dev.write_fails n then none else some (update d n b)
