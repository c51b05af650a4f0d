-- ===== src/FileSystem/Bitmap/Position.antt =====
-- The block that an entry of a map lies in.
use simple_os_dev_projs.Base.{
  ℕ, zero, suc, ◌+◌, ◌-◌, ◌*◌, ◌/◌, ◌≤◌, ◌<◌, ◌≡◌, ap, ◌∙◌, true, false, Bool-cases, inl, inr, ok,
  arith, ltb, if_true, if_false,
}
use simple_os_dev_projs.FileSystem.Disk.{int_end, block_size}
use simple_os_dev_projs.FileSystem.Bitmap.{
  find_block, inode_size, get_block_numb, find_block_for_bitmap,
}

find_block-here :
    (f bytes block : ℕ)
    → ltb bytes (block_size * block) ≡ true
    → find_block (suc f) bytes block ≡ ok (block - 1)
unfolding find_block
find_block-here f bytes block h = if_true _ _ _ h

find_block-on :
    (f bytes block : ℕ)
    → ltb bytes (block_size * block) ≡ false
    → find_block (suc f) bytes block ≡ find_block f bytes (suc block)
unfolding find_block
find_block-on f bytes block h = if_false _ _ _ h

below_test : (a b : ℕ) → ltb a b ≡ true → a < b
below_test a b h = ground arith

above_test : (a b : ℕ) → ltb a b ≡ false → b ≤ a
above_test a b h = ground arith

quotient :
    (bytes block : ℕ)
    → block_size * block ≤ bytes
    → bytes < block_size * suc block
    → suc block - 1 ≡ bytes / block_size
quotient bytes block le less = omega arith

find_block-from :
    (f bytes block : ℕ)
    → block_size * block ≤ bytes
    → bytes < f + block_size * block
    → find_block f bytes (suc block) ≡ ok (bytes / block_size)
find_block-from zero bytes block le less = ground arith
find_block-from (suc f) bytes block le less =
    elim (Bool-cases (ltb bytes (block_size * suc block))) [
      | inl h ↦
          find_block-here f bytes (suc block) h ∙ ap ok (quotient bytes block le (below_test _ _ h))
      | inr h ↦
          find_block-on f bytes (suc block) h
          ∙ find_block-from f bytes (suc block) (above_test _ _ h) (omega arith)
    ]

pub find_block-quotient : (f bytes : ℕ) → bytes < f → find_block f bytes 1 ≡ ok (bytes / block_size)
find_block-quotient f bytes h = find_block-from f bytes 0 (omega arith) (omega arith)

pub find_block_for_bitmap-quotient :
    (f b : ℕ) → b < f → b < int_end - block_size → find_block_for_bitmap f b ≡ ok (b / block_size)
unfolding find_block_for_bitmap
find_block_for_bitmap-quotient f b h small = ground (arith, find_block-quotient f b h)

-- With more rounds than the inodes up to `inumb` have bytes, the block of inode `inumb` is the
-- quotient by the four inodes of a block, and, if that many bytes are in the range of int, the block
-- of map entry `inumb` the quotient by the bytes of a block: both loops end with it.
pub get_block_numb-quotient :
    (f inumb : ℕ)
    → inode_size * inumb < f
    → inumb < int_end - block_size
    → (get_block_numb f inumb ≡ ok (inumb / 4))
      × (find_block_for_bitmap f inumb ≡ ok (inumb / block_size))
unfolding get_block_numb
get_block_numb-quotient f inumb h small = (
  find_block-quotient f (inode_size * inumb) h ∙ ap ok (omega arith),
  find_block_for_bitmap-quotient f inumb (omega arith) small,
)
