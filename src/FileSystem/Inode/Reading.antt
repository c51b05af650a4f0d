-- ===== src/FileSystem/Inode/Reading.antt =====
-- What getBlockByInodeNumb reads, and where inodes lie in their blocks.
use simple_os_dev_projs.Base.{
  ℕ, ◌+◌, ◌*◌, ◌/◌, ◌%◌, ◌≤◌, ◌<◌, ◌≡◌, refl, Bool, true, false, ok, fault, ◌>>=◌, arith,
  if◌then◌else◌, update,
}
use simple_os_dev_projs.FileSystem.Disk.{Block, Disk, Device, block_read, block_write}
use simple_os_dev_projs.FileSystem.Bitmap.{inode_size}
use simple_os_dev_projs.FileSystem.Bitmap.Position.{get_block_numb-quotient}
use simple_os_dev_projs.FileSystem.Inode.{
  max_inumb, inode_offset, block_of_inode, read_or_exit, write_or_exit, get_block_by_inode_numb,
}

-- The block of the disk that holds an inode.
abbrev pub home_of : ℕ → ℕ
home_of inumb = 20 + inumb / 4

pub inode_offset-mod : (inumb : ℕ) → inode_offset inumb ≡ 128 * (inumb % 4)
unfolding inode_offset
inode_offset-mod inumb = omega arith

pub block_of_inode-quotient :
    (g inumb : ℕ)
    → inumb < max_inumb
    → inode_size * inumb < g
    → block_of_inode g inumb ≡ ok (inumb / 4)
unfolding block_of_inode
block_of_inode-quotient g inumb small enough = ground (arith, get_block_numb-quotient g inumb)

pub block_of_inode-negative : (g inumb : ℕ) → max_inumb ≤ inumb → block_of_inode g inumb ≡ fault
unfolding block_of_inode
block_of_inode-negative g inumb large = ground arith

pub read_or_exit-ok :
    (dev : Device) (n : ℕ) (d : Disk) → dev.read_fails n ≡ false → read_or_exit dev n d ≡ ok (d n)
unfolding read_or_exit block_read
read_or_exit-ok dev n d good = rw (good, read_or_exit) refl

pub write_or_exit-ok :
    (dev : Device) (n : ℕ) (b : Block) (d : Disk)
    → dev.write_fails n ≡ false
    → write_or_exit dev n b d ≡ ok (update d n b)
unfolding write_or_exit block_write
write_or_exit-ok dev n b d good = rw (good, write_or_exit) refl

if_same : {A : Type 0} (t : Bool) (x : A) → (if t then x else x) ≡ x
if_same true x = refl
if_same false x = refl

pub get_block-ok :
    (g : ℕ) (dev : Device) (inumb : ℕ) (d : Disk)
    → inumb < max_inumb
    → inode_size * inumb < g
    → dev.read_fails (home_of inumb) ≡ false
    → get_block_by_inode_numb g dev inumb d ≡ ok (d (home_of inumb))
unfolding get_block_by_inode_numb
get_block-ok g dev inumb d small enough good =
    rw (block_of_inode-quotient g inumb small enough)
      (rw (read_or_exit-ok dev (home_of inumb) d good, ◌>>=◌) (if_same _ _))

pub get_block-negative :
    (g : ℕ) (dev : Device) (inumb : ℕ) (d : Disk)
    → max_inumb ≤ inumb
    → get_block_by_inode_numb g dev inumb d ≡ fault
unfolding get_block_by_inode_numb
get_block-negative g dev inumb d large = rw (block_of_inode-negative g inumb large) refl
