-- ===== src/FileSystem/Tests.antt =====
-- Runs of the byte maps on a small disk.
mod Data
mod Files
mod Changes
mod Removal
use simple_os_dev_projs.Base.{◌≡◌, refl, ◌/◌, false, ok, Ends, arith, ◌==◌, if◌then◌else◌}
use simple_os_dev_projs.FileSystem.Disk.{Disk, Device}
use simple_os_dev_projs.FileSystem.Bitmap.{
  get_block_numb, find_block_for_bitmap, get_free_bitmap_entry, map_offset, clear_data_block,
}
use simple_os_dev_projs.FileSystem.Bitmap.Position.{get_block_numb-quotient}
use simple_os_dev_projs.FileSystem.Bitmap.Alloc.{Allocated, get_free_bitmap_entry-Allocated}
use simple_os_dev_projs.FileSystem.Bitmap.Clear.{Leaked, clear_data_block-Leaked}

abbrev sound : Device
sound = record { read_fails = λ _. false; write_fails = λ _. false }

-- Everything is taken but entry 700 of the data map.
abbrev nearly_full : Disk
nearly_full n i = if n == 11 then (if i == 188 then 0 else 1) else 1

get_free_bitmap_entry-Allocated_example :
    Ends
      (λ r. Allocated (map_offset 1) nearly_full r.0 r.1)
      (get_free_bitmap_entry 5000 5000 sound 1 4000 nearly_full)
unfolding map_offset
get_free_bitmap_entry-Allocated_example =
    get_free_bitmap_entry-Allocated 5000 5000 sound 1 4000 nearly_full (λ _. refl) (λ _. refl)
      (omega arith) (omega arith) (omega arith) 700 (omega arith) (omega arith) (omega arith)

clear_data_block-Leaked_example :
    Ends (λ r. Leaked 700 nearly_full r.1) (clear_data_block 1000 sound 700 nearly_full)
clear_data_block-Leaked_example =
    clear_data_block-Leaked 1000 sound 700 nearly_full (λ _. refl) (λ _. refl) (omega arith)
      (omega arith)
