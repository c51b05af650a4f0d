-- ===== src/FileSystem/Unlink/Refs.antt =====
-- The maps that sfs_unlink changes, and the blocks that it leaves.
use simple_os_dev_projs.Base.{
  ℕ, zero, suc, ◌+◌, ◌/◌, ◌%◌, ◌≤◌, ◌<◌, ◌≡◌, ◌≢◌, ◌⊎◌, inl, inr, refl, ap, ◌∙◌, Bool, false, true,
  Bool-cases, some, ok, ◌>>=◌, exited, EndsUnless, reached, quits, EndsUnless-weaken, arith, ◌==◌,
  update, update_ne, update_self,
}
use simple_os_dev_projs.FileSystem.Disk.{block_size, Block, Disk, Device, block_read, block_write}
use simple_os_dev_projs.FileSystem.Bitmap.{get_bitmap_block}
use simple_os_dev_projs.FileSystem.Bitmap.Position.{get_block_numb-quotient}
use simple_os_dev_projs.FileSystem.Bitmap.Clear.{
  wiped, wiped-kept, wiped-zero, clear_data_block-wiped,
}
use simple_os_dev_projs.FileSystem.Inode.{no_ref, block_ptr}
use simple_os_dev_projs.FileSystem.Path.Tree.{inode_rounds}
use simple_os_dev_projs.FileSystem.Unlink.{clear_blocks, clear_inode_entry}

-- The blocks from 10 on, and so the inodes, are as they were.
abbrev pub Kept : (d u : Disk) → Type 0
Kept d u = (m : ℕ) → 10 ≤ m → u m ≡ d m

data_small : {p : ℕ} → (p ≡ no_ref) ⊎ (p < 5000) → (p == no_ref) ≡ false → p < 5000
data_small (inl e) h = ground (arith, e, h)
data_small (inr less) h = less

ne_gap :
    (o : ℕ) (b : Block) (i gap : ℕ)
    → (block_ptr o i b == no_ref) ≡ false
    → block_ptr o gap b ≡ no_ref
    → i ≢ gap
ne_gap o b i gap h e same = differs (block_ptr o i b) h (ap (λ j. block_ptr o j b) same ∙ e)
  where
    differs : (p : ℕ) → (p == no_ref) ≡ false → p ≢ no_ref
    differs p h e = ground (arith, h, e)

-- The loop will still see a -1, or has seen one.
abbrev pub Stops : (o : ℕ) → (b : Block) → (k i : ℕ) → (done : Bool) → Type 0
Stops o b k i done =
    (done ≡ true) ⊎ ((gap : ℕ) × (i ≤ gap) × (gap < i + k) × (block_ptr o gap b ≡ no_ref))

Stops-later :
    (o : ℕ) (b : Block) (k i : ℕ) (done : Bool)
    → (block_ptr o i b == no_ref) ≡ false
    → Stops o b (suc k) i done
    → Stops o b k (suc i) done
Stops-later o b k i done h (inl e) = inl e
Stops-later o b k i done h (inr (gap, le, less, e)) =
    inr (gap, omega (arith, ne_gap o b i gap h e), omega arith, e)

-- For some entry of the inode at byte `o` that is not -1, the value that clearDataBlock leaves without
-- a return is -1.
abbrev pub Loud : (junk : ℕ → Bool) → (o : ℕ) → Block → Type 0
Loud junk o b = (i : ℕ) × (i < 10) × ((block_ptr o i b == no_ref) ≡ false) × (junk i ≡ true)

-- What clearing data blocks does to the disk: from block 10 on nothing, and a byte that is 0 stays so.
pub record Cleared (d u : Disk) : Type 0 where
  pub kept : Kept d u
  pub zeros : (m i : ℕ) → d m i ≡ 0 → u m i ≡ 0

module _ (g : ℕ) (dev : Device) (reads : (n : ℕ) → dev.read_fails n ≡ false)
    (writes : (n : ℕ) → dev.write_fails n ≡ false) (junk : ℕ → Bool)
    (rounds : inode_rounds ≤ g) where
  clear_blocks-ref :
      (o : ℕ) (b : Block) (k i : ℕ) (done : Bool) (d : Disk)
      → (block_ptr o i b == no_ref) ≡ true
      → clear_blocks g dev junk o b (suc k) i done d ≡ clear_blocks g dev junk o b k (suc i) true d
  unfolding clear_blocks
  clear_blocks-ref o b k i done d e = rw (e, clear_blocks) refl

  clear_blocks-data :
      (o : ℕ) (b : Block) (k i : ℕ) (done : Bool) (d : Disk)
      → (block_ptr o i b == no_ref) ≡ false
      → block_ptr o i b < 5000
      → junk i ≡ false
      → clear_blocks g dev junk o b (suc k) i done d
        ≡ clear_blocks g dev junk o b k (suc i) done (wiped (block_ptr o i b) d)
  unfolding clear_blocks
  clear_blocks-data o b k i done d h less quiet =
      rw (h, clear_blocks)
        (rw
          (clear_data_block-wiped dev reads writes g (block_ptr o i b) d (omega arith) less, ◌>>=◌)
          (rw quiet refl))

  clear_blocks-exits :
      (o : ℕ) (b : Block) (k i : ℕ) (done : Bool) (d : Disk)
      → (block_ptr o i b == no_ref) ≡ false
      → block_ptr o i b < 5000
      → junk i ≡ true
      → clear_blocks g dev junk o b (suc k) i done d ≡ exited
  unfolding clear_blocks
  clear_blocks-exits o b k i done d h less loud =
      rw (h, clear_blocks)
        (rw
          (clear_data_block-wiped dev reads writes g (block_ptr o i b) d (omega arith) less, ◌>>=◌)
          (rw loud refl))

  clear_blocks-none :
      (o : ℕ) (b : Block) (i : ℕ) (d : Disk) → clear_blocks g dev junk o b zero i true d ≡ ok d
  unfolding clear_blocks
  clear_blocks-none o b i d = refl

  -- The loop over an inode's blocks ends if some entry is -1, or exits on a value that was not
  -- returned, and touches no block from 10 on.
  pub clear_blocks-Cleared :
      (o : ℕ) (b : Block) (k i : ℕ) (done : Bool) (d : Disk)
      → i + k ≤ 10
      → ((j : ℕ) → j < 10 → (block_ptr o j b ≡ no_ref) ⊎ (block_ptr o j b < 5000))
      → Stops o b k i done
      → EndsUnless (Loud junk o b) (Cleared d) (clear_blocks g dev junk o b k i done d)
  clear_blocks-Cleared o b zero i done d range small (inl e) = rw e (
      rw (clear_blocks-none o b i d) (reached (record { kept = λ m le. refl; zeros = λ m i z. z })))
  clear_blocks-Cleared o b zero i done d range small (inr (gap, le, less, e)) = absurd (omega arith)
  clear_blocks-Cleared o b (suc k) i done d range small stops =
      elim (Bool-cases (block_ptr o i b == no_ref)) [
        | inl e ↦
            rw (clear_blocks-ref o b k i done d e)
              (clear_blocks-Cleared o b k (suc i) true d (omega arith) small (inl refl))
        | inr h ↦ elim (Bool-cases (junk i)) [
          | inl loud ↦
              rw (clear_blocks-exits o b k i done d h (data_small (small i (omega arith)) h) loud)
                (quits (i, omega arith, h, loud))
          | inr quiet ↦
              rw (clear_blocks-data o b k i done d h (data_small (small i (omega arith)) h) quiet) (
                EndsUnless-weaken
                  (clear_blocks-Cleared o b k (suc i) done (wiped (block_ptr o i b) d) (omega arith)
                    small (Stops-later o b k i done h stops))
                  (λ u c. record {
                    kept = λ m le.
                        c.kept m le
                        ∙ wiped-kept (block_ptr o i b) d m (data_small (small i (omega arith)) h)
                            le;
                    zeros = λ m j z. c.zeros m j (wiped-zero (block_ptr o i b) d m j z);
                  }))
        ]
      ]

-- The disk with the entry of an inode in its map set to 0.
abbrev pub entry_freed : (inumb : ℕ) → Disk → Disk
entry_freed inumb d =
    update d (inumb / block_size) (update (d (inumb / block_size)) (inumb % block_size) 0)

pub entry_freed-Kept : (inumb : ℕ) (d : Disk) → inumb < 5000 → Kept d (entry_freed inumb d)
entry_freed-Kept inumb d less m le = update_ne d (inumb / block_size) _ m (omega arith)

pub entry_freed-zero :
    (inumb : ℕ) (d : Disk) → entry_freed inumb d (inumb / block_size) (inumb % block_size) ≡ 0
entry_freed-zero inumb d =
    ap (λ b. b (inumb % block_size)) (update_self d (inumb / block_size) _)
    ∙ update_self (d (inumb / block_size)) (inumb % block_size) 0

block_read-ok :
    (dev : Device) (n : ℕ) (d : Disk) → dev.read_fails n ≡ false → block_read dev n d ≡ some (d n)
unfolding block_read
block_read-ok dev n d good = rw good refl

get_bitmap_block-inode :
    (g : ℕ) (dev : Device) (inumb : ℕ) (d : Disk)
    → ((n : ℕ) → dev.read_fails n ≡ false)
    → inode_rounds ≤ g
    → inumb < 5000
    → get_bitmap_block g dev inumb 0 d ≡ ok (some (d (inumb / block_size)))
unfolding get_bitmap_block
get_bitmap_block-inode g dev inumb d reads rounds less =
    rw (get_block_numb-quotient g inumb (omega arith) (omega arith)).1
      (ap ok (block_read-ok dev _ d (reads _)) ∙ ap (λ n. ok (some (d n))) (omega arith))

pub clear_inode_entry-freed :
    (g : ℕ) (dev : Device) (inumb : ℕ) (d : Disk)
    → ((n : ℕ) → dev.read_fails n ≡ false)
    → ((n : ℕ) → dev.write_fails n ≡ false)
    → inode_rounds ≤ g
    → inumb < 5000
    → clear_inode_entry g dev inumb d ≡ ok (some (entry_freed inumb d))
unfolding clear_inode_entry block_write
clear_inode_entry-freed g dev inumb d reads writes rounds less =
    rw (get_bitmap_block-inode g dev inumb d reads rounds less) (
      rw ((get_block_numb-quotient g inumb (omega arith) (omega arith)).1, ◌>>=◌)
        (rw (writes (inumb / block_size)) refl))
