-- ===== src/FileSystem/Unlink/Left.antt =====
-- A file after sfs_unlink: in a block of its own, and in the block of its directory.
use simple_os_dev_projs.Base.{
  ℕ, ◌+◌, ◌*◌, ◌/◌, ◌%◌, ◌≤◌, ◌<◌, ◌≡◌, ◌≢◌, sym, ap, ◌∙◌, Bool, false, EndsUnless,
  EndsUnless-weaken, arith, update, update_self, update_ne, dec_lt,
}
use simple_os_dev_projs.FileSystem.Disk.{block_size, Block, Disk, Device}
use simple_os_dev_projs.FileSystem.Bitmap.{inode_size}
use simple_os_dev_projs.FileSystem.Inode.{
  no_ref, at_block_ptr, block_ptr, set_block_ptr, inode_offset,
}
use simple_os_dev_projs.FileSystem.Inode.Reading.{home_of, inode_offset-mod}
use simple_os_dev_projs.FileSystem.Inode.Refs.{block_ptr-set, block_ptr-set_other, block_ptr_cong}
use simple_os_dev_projs.FileSystem.Path.Tree.{child, Linked, inode_rounds}
use simple_os_dev_projs.FileSystem.Dirs.{Retstat, success}
use simple_os_dev_projs.FileSystem.Unlink.{erase_inode, unlink_entry}
use simple_os_dev_projs.FileSystem.Unlink.Refs.{Loud}
use simple_os_dev_projs.FileSystem.Unlink.Entry.{FirstRef, Erased, unlink_entry-Erased}

-- Byte `i` is one of the inode's 128 that start at `o`.
abbrev pub Within : (o i : ℕ) → Type 0
Within o i = (o ≤ i) × (i < o + inode_size)

erase_inode-Within : (o : ℕ) (b : Block) (i : ℕ) → Within o i → erase_inode o b i ≡ 0
unfolding erase_inode
erase_inode-Within o b i (le, less) = ground arith

erase_inode-before : (o : ℕ) (b : Block) (i : ℕ) → i < o → erase_inode o b i ≡ b i
unfolding erase_inode
erase_inode-before o b i less = ground arith

erase_inode-behind : (o : ℕ) (b : Block) (i : ℕ) → o + inode_size ≤ i → erase_inode o b i ≡ b i
unfolding erase_inode
erase_inode-behind o b i le = ground arith

-- The reference is gone, the inode is zeros and its entry in the map is free, and the other entries and blocks of inodes are as before.
pub record Unlinked (inumb p slot : ℕ) (d u : Disk) : Type 0 where
  pub reference : child u p slot ≡ no_ref
  pub others : (j : ℕ) → slot ≢ j → child u p j ≡ child d p j
  pub erased : (i : ℕ) → Within (inode_offset inumb) i → u (home_of inumb) i ≡ 0
  pub entry_free : u (inumb / block_size) (inumb % block_size) ≡ 0
  pub rest : (m : ℕ) → 20 ≤ m → m ≢ home_of p → m ≢ home_of inumb → u m ≡ d m

-- The directory's entries are all as before, though the inode is zeros.
pub record StillReferred (inumb p : ℕ) (d u : Disk) : Type 0 where
  pub entries : (j : ℕ) → j < 10 → child u p j ≡ child d p j
  pub erased : (i : ℕ) → Within (inode_offset inumb) i → u (home_of inumb) i ≡ 0

-- The disk that the directory has been written back to.
abbrev without_ref : (p slot : ℕ) → Disk → Disk
without_ref p slot d =
    update d (home_of p) (set_block_ptr (inode_offset p) slot no_ref (d (home_of p)))

module _ (inumb p : ℕ) (d : Disk) (slot : ℕ) (x : Retstat × Disk) where
  Erased-at :
      Erased inumb (d (home_of inumb)) (without_ref p slot d) x
      → x.1 (home_of inumb) ≡ erase_inode (inode_offset inumb) (d (home_of inumb))
  Erased-at r =
      ap (λ u. u (home_of inumb)) r.written
      ∙ update_self r.cleared (home_of inumb) (erase_inode (inode_offset inumb) (d (home_of inumb)))

  Kept-at :
      (r : Erased inumb (d (home_of inumb)) (without_ref p slot d) x) (m : ℕ)
      → 20 ≤ m
      → m ≢ home_of inumb
      → x.1 m ≡ without_ref p slot d m
  Kept-at r m le ne =
      ap (λ u. u m) r.written ∙ update_ne r.cleared (home_of inumb) _ m ne ∙ r.kept m (omega arith)

  Freed-at :
      inumb < 5000
      → Erased inumb (d (home_of inumb)) (without_ref p slot d) x
      → x.1 (inumb / block_size) (inumb % block_size) ≡ 0
  Freed-at less r =
      ap (λ u. u (inumb / block_size) (inumb % block_size)) r.written
      ∙ ap (λ b. b (inumb % block_size))
          (update_ne r.cleared (home_of inumb) _ (inumb / block_size) (omega arith))
      ∙ r.freed

  Erased-Unlinked :
      inumb < 5000
      → home_of inumb ≢ home_of p
      → Erased inumb (d (home_of inumb)) (without_ref p slot d) x
      → Unlinked inumb p slot d x.1
  Erased-Unlinked less apart r =
      let o = inode_offset p in
      let dir =
        Kept-at r (home_of p) (omega arith) (λ e. apart (sym e))
        ∙ update_self d (home_of p) (set_block_ptr o slot no_ref (d (home_of p))) in
      record {
        reference = ap (block_ptr o slot) dir ∙ block_ptr-set o slot no_ref _ (omega arith);
        others =
            λ j ne. ap (block_ptr o j) dir ∙ block_ptr-set_other o slot no_ref j (d (home_of p)) ne;
        erased = λ i within.
            ap (λ b. b i) (Erased-at r) ∙ erase_inode-Within (inode_offset inumb) _ i within;
        entry_free = Freed-at less r;
        rest = λ m le mp mn. Kept-at r m le mn ∙ update_ne d (home_of p) _ m mp;
      }

  -- Two inodes of a block are apart in it.
  same_block :
      (j i : ℕ)
      → inumb ≢ p
      → home_of inumb ≡ home_of p
      → j < 10
      → inode_offset p + at_block_ptr + 4 * j ≤ i
      → i < inode_offset p + at_block_ptr + 4 * j + 4
      → erase_inode (inode_offset inumb) (d (home_of inumb)) i ≡ d (home_of inumb) i
  same_block j i ne together range le less =
      let mine = inode_offset-mod inumb in
      let theirs = inode_offset-mod p in
      elim (dec_lt (inumb % 4) (p % 4)) [
        | yes before ↦ erase_inode-behind (inode_offset inumb) (d (home_of inumb)) i (omega arith)
        | no behind ↦
            erase_inode-before (inode_offset inumb) (d (home_of inumb)) i
              (omega (arith, ne, behind))
      ]

  Erased-StillReferred :
      inumb ≢ p
      → home_of inumb ≡ home_of p
      → Erased inumb (d (home_of inumb)) (without_ref p slot d) x
      → StillReferred inumb p d x.1
  Erased-StillReferred ne together r = record {
    entries = λ j range.
        ap (λ m. block_ptr (inode_offset p) j (x.1 m)) (sym together)
        ∙ ap (block_ptr (inode_offset p) j) (Erased-at r)
        ∙ block_ptr_cong (inode_offset p) j _ (d (home_of inumb))
            (λ i le less. same_block j i ne together range le less)
        ∙ ap (λ m. block_ptr (inode_offset p) j (d m)) together;
    erased = λ i within.
        ap (λ b. b i) (Erased-at r) ∙ erase_inode-Within (inode_offset inumb) _ i within;
  }

-- Where reads and writes of the disk succeed, the rounds suffice, the entries of the 5000 inodes
-- are -1 or the numbers of some of them, one of the file's own entries is -1, the first entry of
-- the directory that names the file is `r.slot`, and the file's inode lies in another block than
-- the directory's, removing the file succeeds, unless for one of the file's blocks the value that
-- clearDataBlock leaves without a return is -1, and the program then exits. That entry becomes -1
-- and the others stay, the file's inode becomes zeros, its entry in the map becomes free, and no
-- other block from the inodes on changes.
pub unlink_entry-Unlinked :
    (g : ℕ) (dev : Device) (junk : ℕ → Bool) (inumb p gap : ℕ) (d : Disk)
    → ((n : ℕ) → dev.read_fails n ≡ false)
    → ((n : ℕ) → dev.write_fails n ≡ false)
    → inode_rounds ≤ g
    → inumb < 5000
    → p < 5000
    → Linked d
    → gap < 10
    → child d inumb gap ≡ no_ref
    → (r : FirstRef inumb (inode_offset p) (d (home_of p))) → home_of inumb ≢ home_of p
    → EndsUnless
        (Loud junk (inode_offset inumb) (d (home_of inumb)))
        (λ x. (x.0 ≡ success) × Unlinked inumb p r.slot d x.1)
        (unlink_entry g dev junk inumb p d)
unlink_entry-Unlinked g dev junk inumb p gap d reads writes rounds less less_p linked range e r
      apart =
    EndsUnless-weaken
      (unlink_entry-Erased g dev reads writes junk rounds inumb p d less less_p linked gap range e
        r)
      (λ x erased. (erased.reports, Erased-Unlinked inumb p d r.slot x less apart erased))

-- Where reads and writes of the disk succeed, the rounds suffice, the entries of the 5000 inodes
-- are -1 or the numbers of some of them, one of the file's own entries is -1, the directory names
-- the file in an entry, and the file's inode lies in the block of the directory's and is another,
-- removing the file reports success, unless for one of the file's blocks the value that
-- clearDataBlock leaves without a return is -1, and the program then exits. The inode becomes
-- zeros, but each entry of the directory is as before, the one that names the file too.
pub unlink_entry-stale :
    (g : ℕ) (dev : Device) (junk : ℕ → Bool) (inumb p gap : ℕ) (d : Disk)
    → ((n : ℕ) → dev.read_fails n ≡ false)
    → ((n : ℕ) → dev.write_fails n ≡ false)
    → inode_rounds ≤ g
    → inumb < 5000
    → p < 5000
    → Linked d
    → gap < 10
    → child d inumb gap ≡ no_ref
    → (r : FirstRef inumb (inode_offset p) (d (home_of p))) → inumb ≢ p
    → home_of inumb ≡ home_of p
    → EndsUnless
        (Loud junk (inode_offset inumb) (d (home_of inumb)))
        (λ x. (x.0 ≡ success) × StillReferred inumb p d x.1)
        (unlink_entry g dev junk inumb p d)
unlink_entry-stale g dev junk inumb p gap d reads writes rounds less less_p linked range e r ne
      together =
    EndsUnless-weaken
      (unlink_entry-Erased g dev reads writes junk rounds inumb p d less less_p linked gap range e
        r)
      (λ x erased. (erased.reports, Erased-StillReferred inumb p d r.slot x ne together erased))
