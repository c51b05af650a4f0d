-- ===== src/FileSystem/Attr/Blocks.antt =====
-- What sfs_getattr reports.
use simple_os_dev_projs.Base.{
  ℕ, zero, suc, ◌+◌, ◌-◌, ◌*◌, ◌/◌, ◌≤◌, ◌<◌, ◌≡◌, inl, inr, refl, ap, ◌∙◌, false, List, Option,
  none, some, ok, ◌>>=◌, arith, dec_le, Bool-cases, ◌==◌, if◌then◌else◌,
}
use simple_os_dev_projs.FileSystem.Disk.{block_size, int_end, Block, Disk, Device}
use simple_os_dev_projs.FileSystem.Bytes.{load}
use simple_os_dev_projs.FileSystem.Inode.{
  at_state, at_uid, at_size, at_time, at_ctime, at_mtime, at_owner, at_group, inode_offset,
}
use simple_os_dev_projs.FileSystem.Inode.Reading.{home_of}
use simple_os_dev_projs.FileSystem.Path.{tokens}
use simple_os_dev_projs.FileSystem.Path.Tree.{resolve, resolve-cases, Linked, inode_rounds}
use simple_os_dev_projs.FileSystem.Path.Resolve.{
  get_block-small, small_test, lookup-missing, lookup-found,
}
use simple_os_dev_projs.FileSystem.Attr.{
  Stat, is_past, count_blocks, mode_and_links, fill_stat, sfs_getattr,
}

abbrev pub size_of : Disk → (inumb : ℕ) → ℕ
size_of d inumb = load 4 (d (home_of inumb)) (inode_offset inumb + at_size)

-- The members of struct inode that are reported.
pub record Inode : Type 0 where
  pub state : ℕ
  pub uid : ℕ
  pub owner : ℕ
  pub group : ℕ
  pub size : ℕ
  pub time : ℕ
  pub ctime : ℕ
  pub mtime : ℕ

-- The inode that the disk holds.
abbrev pub inode_at : (b : Block) → (o : ℕ) → Inode
inode_at b o = record {
  state = b (o + at_state);
  uid = load 4 b (o + at_uid);
  owner = load 4 b (o + at_owner);
  group = load 4 b (o + at_group);
  size = load 4 b (o + at_size);
  time = load 8 b (o + at_time);
  ctime = load 8 b (o + at_ctime);
  mtime = load 8 b (o + at_mtime);
}

-- The report of an inode: a directory has mode 040755 and two links, a file 0100444 and one; for
-- other states the buffer keeps what it had.
abbrev pub report_of : Inode → Stat → Stat
report_of v old = record {
  st_ino = v.uid;
  st_mode = if v.state == 100 then 16877 else if v.state == 102 then 33060 else old.st_mode;
  st_nlink = if v.state == 100 then 2 else if v.state == 102 then 1 else old.st_nlink;
  st_uid = v.owner;
  st_gid = v.group;
  st_rdev = 0;
  st_size = v.size;
  st_blocks = suc (v.size / block_size);
  st_atime = v.time;
  st_mtime = v.mtime;
  st_ctime = v.ctime;
}

fill_stat-members :
    (b : Block) (o : ℕ) (old : Stat)
    → fill_stat b o (suc ((inode_at b o).size / block_size)) old ≡ report_of (inode_at b o) old
unfolding fill_stat mode_and_links
fill_stat-members b o old = elim (Bool-cases (b (o + at_state) == 100)) [
  | inl d ↦ rw d refl
  | inr e ↦ elim (Bool-cases (b (o + at_state) == 102)) [
    | inl f ↦ rw (e, f) refl
    | inr g ↦ rw (e, g) refl
  ]
]

-- The report on where a path leads.
abbrev pub report : Disk → Stat → Option ℕ → Option Stat
report d statbuf none = none
report d statbuf (some n) = some (report_of (inode_at (d (home_of n)) (inode_offset n)) statbuf)

count_blocks-stop :
    (f size block : ℕ)
    → size < int_end - block_size
    → size < block_size * block
    → block_size * block ≤ size + block_size
    → count_blocks (suc f) size block ≡ ok block
unfolding count_blocks is_past
count_blocks-stop f size block small less near = ground arith

count_blocks-on :
    (f size block : ℕ)
    → size < int_end
    → block_size * block ≤ size
    → count_blocks (suc f) size block ≡ count_blocks f size (suc block)
unfolding count_blocks is_past
count_blocks-on f size block small le = ground arith

count_blocks-from :
    (f size block : ℕ)
    → size < int_end - block_size
    → block_size * block ≤ size
    → size < f + block_size * block
    → count_blocks f size (suc block) ≡ ok (suc (size / block_size))
count_blocks-from zero size block small le less = ground arith
count_blocks-from (suc f) size block small le less = elim (dec_le (block_size * suc block) size) [
  | yes on ↦
      count_blocks-on f size (suc block) (omega arith) on
      ∙ count_blocks-from f size (suc block) small on (omega arith)
  | no stop ↦
      count_blocks-stop f size (suc block) small (omega (arith, stop)) (omega arith)
      ∙ ap ok (omega (arith, stop))
]

count_blocks-quotient :
    (f size : ℕ)
    → size < int_end - block_size
    → size < f
    → count_blocks f size 1 ≡ ok (suc (size / block_size))
count_blocks-quotient f size small enough =
    count_blocks-from f size 0 small (omega arith) (omega arith)

module _ (g f : ℕ) (dev : Device) (path : List ℕ) (statbuf : Stat) (d : Disk)
    (reads : (n : ℕ) → dev.read_fails n ≡ false) (linked : Linked d)
    (rounds : inode_rounds ≤ g) where
  getattr-missing : resolve d (tokens path) 0 ≡ none → sfs_getattr g f dev path statbuf d ≡ ok none
  unfolding sfs_getattr
  getattr-missing e = rw (lookup-missing g dev path d reads linked rounds e) refl

  getattr-found :
      (n : ℕ)
      → resolve d (tokens path) 0 ≡ some n
      → n < 5000
      → size_of d n < int_end - block_size
      → int_end ≤ f
      → sfs_getattr g f dev path statbuf d ≡ ok (report d statbuf (some n))
  unfolding sfs_getattr
  getattr-found n e less small enough = rw (lookup-found g dev path d reads linked rounds n e) (
      rw (small_test n less, ◌>>=◌)
        (rw (get_block-small g dev d reads linked rounds n less) (
          rw (count_blocks-quotient f (size_of d n) small (omega arith), ◌>>=◌)
            (ap (λ s. ok (some s)) (fill_stat-members (d (home_of n)) (inode_offset n) statbuf)))))

-- Where reads of the disk succeed, every entry of the 5000 inodes is -1 or the number of one of them,
-- no file's size is within a block of the range of int, and the rounds suffice for the inodes and for
-- sizes, sfs_getattr ends: with -1 where the path leads nowhere, and otherwise with the members of the
-- inode that the path leads to, each in the member of the buffer that is its own (st_atime from time), the
-- mode and the links by its state, its number of blocks being one more than the whole blocks of its size.
pub sfs_getattr-report :
    (g f : ℕ) (dev : Device) (path : List ℕ) (statbuf : Stat) (d : Disk)
    → ((n : ℕ) → dev.read_fails n ≡ false)
    → Linked d
    → ((n : ℕ) → n < 5000 → size_of d n < int_end - block_size)
    → inode_rounds ≤ g
    → int_end ≤ f
    → sfs_getattr g f dev path statbuf d ≡ ok (report d statbuf (resolve d (tokens path) 0))
sfs_getattr-report g f dev path statbuf d reads linked sizes rounds enough =
    elim (resolve-cases d linked (tokens path) 0 (omega arith)) [
      | inl e ↦ getattr-missing g f dev path statbuf d reads linked rounds e ∙ rw e refl
      | inr (n, e, less) ↦
          getattr-found g f dev path statbuf d reads linked rounds n e less (sizes n less) enough
          ∙ rw e refl
    ]
