-- ===== src/FileSystem/Bitmap/Clear.antt =====
-- What clearDataBlock does to the two maps.
use simple_os_dev_projs.Base.{
  ℕ, ◌+◌, ◌/◌, ◌%◌, ◌≤◌, ◌<◌, ◌≡◌, refl, ap, ◌∙◌, false, some, ok, ◌>>=◌, Ends, ends, arith, update,
  update_self, update_ne, ℕ_discrete,
}
use simple_os_dev_projs.FileSystem.Disk.{block_size, Block, Disk, Device, block_read, block_write}
use simple_os_dev_projs.FileSystem.Bitmap.{
  no_return, get_bitmap_block, clear_entry, clear_data_block,
}
use simple_os_dev_projs.FileSystem.Bitmap.Position.{find_block_for_bitmap-quotient}

-- The data map, which starts at block 10, is as it was, and a block of the inode map is all zeros.
pub record Leaked (b : ℕ) (d u : Disk) : Type 0 where
  pub same_data_map : (n : ℕ) → 10 ≤ n → u n ≡ d n
  pub lost_inodes : (i : ℕ) → u (b / block_size) i ≡ 0

-- The disk that clearDataBlock leaves.
abbrev pub wiped : (b : ℕ) → Disk → Disk
wiped b d =
    let n = b / block_size in
    update (update d n (update (d (10 + n)) (n % block_size) 0)) n (λ i. 0)

pub wiped-kept : (b : ℕ) (d : Disk) (m : ℕ) → b < 5000 → 10 ≤ m → wiped b d m ≡ d m
wiped-kept b d m less le =
    let n = b / block_size in
    update_ne (update d n (update (d (10 + n)) (n % block_size) 0)) n (λ i. 0) m (omega arith)
    ∙ update_ne d n (update (d (10 + n)) (n % block_size) 0) m (omega arith)

-- Where a byte is 0 it stays so.
pub wiped-zero : (b : ℕ) (d : Disk) (m i : ℕ) → d m i ≡ 0 → wiped b d m i ≡ 0
wiped-zero b d m i z = elim (ℕ_discrete m (b / block_size)) [
  | yes e ↦
      ap (λ (x : Block). x i)
        (ap (wiped b d) e ∙ update_self (update d (b / block_size) _) (b / block_size) (λ j. 0))
  | no ne ↦
      ap (λ (x : Block). x i)
        (update_ne (update d (b / block_size) _) (b / block_size) (λ j. 0) m ne
          ∙ update_ne d (b / block_size) _ m ne)
      ∙ z
]

module _ (dev : Device) (reads : (n : ℕ) → dev.read_fails n ≡ false)
    (writes : (n : ℕ) → dev.write_fails n ≡ false) where
  clear_entry-ok :
      (n : ℕ) (b : Block) (d : Disk)
      → clear_entry dev n b d
        ≡ (no_return, update (update d n (update b (n % block_size) 0)) n (λ i. 0))
  unfolding clear_entry block_write
  clear_entry-ok n b d = rw (writes n, clear_entry) (rw (writes n, block_write) refl)

  get_bitmap_block-ok :
      (g b : ℕ) (d : Disk)
      → b < g
      → b < 5000
      → get_bitmap_block g dev b 1 d ≡ ok (some (d (10 + b / block_size)))
  unfolding get_bitmap_block block_read
  get_bitmap_block-ok g b d l lb =
      rw (find_block_for_bitmap-quotient g b l (omega arith))
        (rw (reads (10 + b / block_size), ◌>>=◌) refl)

  clear_data_block-ok :
      (g b : ℕ) (d : Disk)
      → b < g
      → b < 5000
      → clear_data_block g dev b d
        ≡ ok (clear_entry dev (b / block_size) (d (10 + b / block_size)) d)
  unfolding clear_data_block
  clear_data_block-ok g b d l lb =
      rw (find_block_for_bitmap-quotient g b l (omega arith))
        (rw (get_bitmap_block-ok g b d l lb, ◌>>=◌) refl)

  pub clear_data_block-wiped :
      (g b : ℕ) (d : Disk)
      → b < g
      → b < 5000
      → clear_data_block g dev b d ≡ ok (no_return, wiped b d)
  clear_data_block-wiped g b d l lb =
      clear_data_block-ok g b d l lb ∙ ap ok (clear_entry-ok (b / block_size) _ d)

-- Where reads and writes of the disk succeed, clearDataBlock of a block below 5000 ends without
-- freeing the entry: every block from the data map on is as it was, and instead a block of the
-- inode map has become all zeros.
pub clear_data_block-Leaked :
    (g : ℕ) (dev : Device) (b : ℕ) (d : Disk)
    → ((n : ℕ) → dev.read_fails n ≡ false)
    → ((n : ℕ) → dev.write_fails n ≡ false)
    → b < g
    → b < 5000
    → Ends (λ r. Leaked b d r.1) (clear_data_block g dev b d)
clear_data_block-Leaked g dev b d reads writes l lb =
    let erased = update (d (10 + b / block_size)) ((b / block_size) % block_size) 0 in
    rw
      (
        clear_data_block-ok dev reads writes g b d l lb,
        clear_entry-ok dev reads writes (b / block_size) (d (10 + b / block_size)) d,
      )
      (ends (record {
        same_data_map = λ n h.
            update_ne (update d (b / block_size) erased) (b / block_size) (λ i. 0) n (omega arith)
            ∙ update_ne d (b / block_size) erased n (omega arith);
        lost_inodes = λ i.
            ap (λ f. f i)
              (update_self (update d (b / block_size) erased) (b / block_size) (λ j. 0));
      }))
