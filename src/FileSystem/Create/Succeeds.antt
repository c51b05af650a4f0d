-- ===== src/FileSystem/Create/Succeeds.antt =====
-- sfs_create succeeds where there is room.
use simple_os_dev_projs.Base.{
  ℕ, ◌+◌, ◌/◌, ◌%◌, ◌≤◌, ◌<◌, ◌≡◌, ◌≢◌, refl, sym, ap, ◌∙◌, false, some, none, ok, Ends-value,
  arith, ◌==◌, update, update_ne,
}
use simple_os_dev_projs.FileSystem.Disk.{block_size, Disk, Device}
use simple_os_dev_projs.FileSystem.Bitmap.{map_offset, get_free_bitmap_entry}
use simple_os_dev_projs.FileSystem.Bitmap.Alloc.{
  byte_of, Allocated, get_free_bitmap_entry-Allocated,
}
use simple_os_dev_projs.FileSystem.Inode.{inode_offset}
use simple_os_dev_projs.FileSystem.Inode.Reading.{home_of}
use simple_os_dev_projs.FileSystem.Path.{get_inode_numb_from_path}
use simple_os_dev_projs.FileSystem.Path.Tree.{inode_rounds}
use simple_os_dev_projs.FileSystem.Create.{Text, Fs, Draws, substring, find_slash, open_child_space}
use simple_os_dev_projs.FileSystem.Create.Writes.{Steps}

-- There is room for one more file in directory `p` on the path: a free entry in the directory and in
-- either map, the draws are entries of the maps, and the count of inodes is not 5000.
pub record HasRoom (g : ℕ) (dev : Device) (w : Draws) (path : Text) (fs : Fs) : Type 0 where
  pub slash_at : ℕ
  pub dir_inumb : ℕ
  pub slot : ℕ
  pub free_inode : ℕ
  pub free_block : ℕ
  pub draws_in_map : (w.inode_start < 5000) × (w.data_start < 5000)
  pub not_full : fs.inodes_used ≢ 5000
  pub slash_found : find_slash path ≡ ok slash_at
  pub dir_found : get_inode_numb_from_path g dev (substring path 0 slash_at) fs.disk ≡ ok dir_inumb
  pub dir_small : dir_inumb < 5000
  pub slot_free :
      open_child_space (inode_offset dir_inumb) (fs.disk (home_of dir_inumb)) 10 0 none ≡ some slot
  pub inode_in_map : (0 < free_inode) × (free_inode < 5000)
  pub inode_free : byte_of (map_offset 0) free_inode fs.disk ≢ 1
  pub block_in_map : (0 < free_block) × (free_block < 5000)
  pub block_free : byte_of (map_offset 1) free_block fs.disk ≢ 1

ne_test : (a b : ℕ) → a ≢ b → (a == b) ≡ false
ne_test a b h = ground (arith, h)

map_offset-maps : (map_offset 0 ≡ 0) × (map_offset 1 ≡ 10)
unfolding map_offset
map_offset-maps = (refl, refl)

-- Taking an inode leaves the data map.
data_map-kept :
    (d u : Disk) (k taken : ℕ)
    → taken < 5000
    → u
      ≡ update d
          (map_offset 0 + taken / block_size)
          (update (d (map_offset 0 + taken / block_size)) (taken % block_size) 1)
    → byte_of (map_offset 1) k u ≡ byte_of (map_offset 1) k d
data_map-kept d u k taken less e =
    let at = map_offset-maps in
    let v = update (d (map_offset 0 + taken / block_size)) (taken % block_size) 1 in
    ap (λ x. x (map_offset 1 + k / block_size) (k % block_size)) e
    ∙ ap (λ b. b (k % block_size))
        (update_ne d (map_offset 0 + taken / block_size) v (map_offset 1 + k / block_size)
          (omega arith))

module _ (g f : ℕ) (dev : Device) (w : Draws) (path : Text) (mode : ℕ) (fs : Fs)
    (reads : (n : ℕ) → dev.read_fails n ≡ false) (writes : (n : ℕ) → dev.write_fails n ≡ false)
    (rounds : inode_rounds ≤ g) (maps : 5000 ≤ f) (room : HasRoom g dev w path fs) where
  abbrev inode_search :
      (r : _) × (get_free_bitmap_entry g f dev 0 w.inode_start fs.disk ≡ ok r)
      × Allocated (map_offset 0) fs.disk r.0 r.1
  inode_search =
      let in_map = room.inode_in_map in
      Ends-value (
        get_free_bitmap_entry-Allocated g f dev 0 w.inode_start fs.disk reads writes (omega arith)
          maps room.draws_in_map.0 room.free_inode in_map.0 in_map.1 room.inode_free)

  abbrev data_search :
      (r : _) × (get_free_bitmap_entry g f dev 1 w.data_start inode_search.0.1 ≡ ok r)
      × Allocated (map_offset 1) inode_search.0.1 r.0 r.1
  data_search =
      let in_map = room.block_in_map in
      let took = inode_search.2 in
      Ends-value (
        get_free_bitmap_entry-Allocated g f dev 1 w.data_start inode_search.0.1 reads writes
          (omega arith) maps room.draws_in_map.1 room.free_block in_map.0 in_map.1
          (λ e. room.block_free (
            sym (
              data_map-kept fs.disk inode_search.0.1 room.free_block took.taken took.in_map
                took.disk_after)
            ∙ e)))

  -- What the calls inside of sfs_create come to.
  abbrev steps_of : Steps g f dev w path fs
  steps_of =
      let inode = inode_search.2 in
      let block = data_search.2 in
      record {
        slash_at = room.slash_at;
        dir_inumb = room.dir_inumb;
        slot = room.slot;
        new_inumb = inode.taken;
        data_block = block.taken;
        inode_taken = inode_search.0.1;
        data_taken = data_search.0.1;
        not_full = ne_test fs.inodes_used 5000 room.not_full;
        slash_found = room.slash_found;
        dir_found = room.dir_found;
        dir_small = room.dir_small;
        slot_free = room.slot_free;
        inode_found = inode_search.1 ∙ ap (λ a. ok (a, inode_search.0.1)) inode.answer;
        new_small = inode.in_map;
        data_small = block.in_map;
        data_found = data_search.1 ∙ ap (λ a. ok (a, data_search.0.1)) block.answer;
      }
