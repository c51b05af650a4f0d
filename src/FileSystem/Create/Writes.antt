-- ===== src/FileSystem/Create/Writes.antt =====
-- What sfs_create writes to the disk.
use simple_os_dev_projs.Base.{
  ℕ, suc, ◌-◌, ◌≤◌, ◌<◌, ◌≡◌, refl, false, none, some, Run, ok, ◌>>=◌, arith, ◌==◌, update,
}
use simple_os_dev_projs.FileSystem.Disk.{Block, Disk, Device, block_write}
use simple_os_dev_projs.FileSystem.Bitmap.{entry, get_free_bitmap_entry}
use simple_os_dev_projs.FileSystem.Inode.{set_block_ptr, inode_offset}
use simple_os_dev_projs.FileSystem.Inode.Reading.{home_of, get_block-ok, block_of_inode-quotient}
use simple_os_dev_projs.FileSystem.Path.{get_inode_numb_from_path}
use simple_os_dev_projs.FileSystem.Path.Tree.{inode_rounds}
use simple_os_dev_projs.FileSystem.Dirs.{Retstat, success}
use simple_os_dev_projs.FileSystem.Create.{
  Text, Fs, Draws, strlen, substring, find_slash, open_child_space, fill_inode, write_created,
  give_block, take_inode, sfs_create,
}

-- What the calls inside of sfs_create come to, for a path with a slash at `i`: the directory, the entry
-- that is free in it, the new inode, its data block, and the disk after each search of a map.
pub record Steps (g f : ℕ) (dev : Device) (w : Draws) (path : Text) (fs : Fs) : Type 0 where
  pub slash_at : ℕ
  pub dir_inumb : ℕ
  pub slot : ℕ
  pub new_inumb : ℕ
  pub data_block : ℕ
  pub inode_taken : Disk
  pub data_taken : Disk
  pub not_full : (fs.inodes_used == 5000) ≡ false
  pub slash_found : find_slash path ≡ ok slash_at
  pub dir_found : get_inode_numb_from_path g dev (substring path 0 slash_at) fs.disk ≡ ok dir_inumb
  pub dir_small : dir_inumb < 5000
  pub slot_free :
      open_child_space (inode_offset dir_inumb) (fs.disk (home_of dir_inumb)) 10 0 none ≡ some slot
  pub inode_found :
      get_free_bitmap_entry g f dev 0 w.inode_start fs.disk ≡ ok (entry new_inumb, inode_taken)
  pub new_small : new_inumb < 5000
  pub data_small : data_block < 5000
  pub data_found :
      get_free_bitmap_entry g f dev 1 w.data_start inode_taken ≡ ok (entry data_block, data_taken)

module _ {g f : ℕ} {dev : Device} {w : Draws} {path : Text} {fs : Fs} where
  -- The block that is written for the directory, the block that is written for the new inode, and the
  -- disk after both.
  abbrev pub dir_written : Steps g f dev w path fs → Block
  dir_written s =
      set_block_ptr (inode_offset s.dir_inumb) s.slot s.new_inumb (fs.disk (home_of s.dir_inumb))

  abbrev pub inode_written : (mode : ℕ) → Steps g f dev w path fs → Block
  inode_written mode s = set_block_ptr (inode_offset s.dir_inumb) 0 s.data_block (
      fill_inode (inode_offset s.dir_inumb) mode
        (substring path (suc s.slash_at) (strlen path.chars - 1)) s.new_inumb w.now
        (s.inode_taken (home_of s.new_inumb)))

  abbrev pub disk_written : (mode : ℕ) → Steps g f dev w path fs → Disk
  disk_written mode s =
      update (update s.data_taken (home_of s.dir_inumb) (dir_written s)) (home_of s.new_inumb)
        (inode_written mode s)

write_created-ok :
    (g : ℕ) (dev : Device) (p n : ℕ) (dir temp : Block) (fs : Fs)
    → ((m : ℕ) → dev.write_fails m ≡ false)
    → inode_rounds ≤ g
    → p < 5000
    → n < 5000
    → write_created g dev p n dir temp fs
      ≡ ok (success, record fs { disk = update (update fs.disk (home_of p) dir) (home_of n) temp })
unfolding write_created block_write
write_created-ok g dev p n dir temp fs writes rounds small_p small_n =
    rw (block_of_inode-quotient g p (omega arith) (omega arith)) (
      rw (writes (home_of p), ◌>>=◌)
        (rw (block_of_inode-quotient g n (omega arith) (omega arith), ◌>>=◌)
          (rw (writes (home_of n), ◌>>=◌) refl)))

module _ (g f : ℕ) (dev : Device) (w : Draws) (path : Text) (mode : ℕ) (fs : Fs)
    (reads : (n : ℕ) → dev.read_fails n ≡ false) (writes : (n : ℕ) → dev.write_fails n ≡ false)
    (rounds : inode_rounds ≤ g) (s : Steps g f dev w path fs) where
  abbrev pub result : Run (Retstat × Fs)
  result = ok (
    success,
    record {
      disk = disk_written mode s;
      inodes_used = suc fs.inodes_used;
      blocks_used = suc fs.blocks_used;
    },
  )

  give_block-ok :
      give_block g f dev w mode
        (substring path (suc s.slash_at) (strlen path.chars - 1))
        s.dir_inumb
        s.slot
        s.new_inumb
        (fs.disk (home_of s.dir_inumb))
        (record fs { disk = s.inode_taken; inodes_used = suc fs.inodes_used })
      ≡ result
  unfolding give_block
  give_block-ok =
      let small = s.new_small in
      rw
        (get_block-ok g dev s.new_inumb s.inode_taken (omega arith) (omega arith)
          (reads (home_of s.new_inumb)))
        (rw (s.data_found, ◌>>=◌)
          (write_created-ok g dev s.dir_inumb s.new_inumb _ _ _ writes rounds s.dir_small
            s.new_small))

  take_inode-ok :
      take_inode g f dev w mode
        (substring path (suc s.slash_at) (strlen path.chars - 1))
        s.dir_inumb
        s.slot
        (fs.disk (home_of s.dir_inumb))
        fs
      ≡ result
  unfolding take_inode
  take_inode-ok = rw s.inode_found give_block-ok

  pub create-ok : sfs_create g f dev w path mode fs ≡ result
  unfolding sfs_create
  create-ok =
      let small = s.dir_small in
      rw (s.not_full, sfs_create)
        (rw (s.slash_found, ◌>>=◌)
          (rw (s.dir_found, ◌>>=◌)
            (rw
              (
                get_block-ok g dev s.dir_inumb fs.disk (omega arith) (omega arith)
                    (reads (home_of s.dir_inumb)),
                ◌>>=◌,
              )
              (rw s.slot_free take_inode-ok))))
