-- ===== src/Memory/Tests/Blocks.antt =====
-- Blocks that are taken and given back.
use simple_os_dev_projs.Base.{◌>>=◌, ◌≡◌, refl, ◌+◌, [], ◌∷◌, arith, Ends, ◌>>=◌}
use simple_os_dev_projs.Memory.Region.{null, node_size, region_allocate}
use simple_os_dev_projs.Memory.Region.Blocks.{Blocks}
use simple_os_dev_projs.Memory.Region.Refine.{region_allocate-reuse, region_allocate-append}
use simple_os_dev_projs.Memory.Release.{region_deallocate}
use simple_os_dev_projs.Memory.Release.Stale.{Row, stale_predecessor}
use simple_os_dev_projs.Memory.Release.Undo.{allocate-deallocate}
use simple_os_dev_projs.Memory.Tests.Data.{block, two_blocks, four_blocks, two-Blocks}

region_allocate-reuse_example :
    Ends
      (λ r. (r.0 ≡ 1032) × Blocks r.1 null 1000 (block 1 40) (block 1 8 ∷ []))
      (region_allocate 10 1000 2000 40 two_blocks)
region_allocate-reuse_example =
    region_allocate-reuse 10 1000 2000 40 two_blocks (block 0 40) (block 1 8 ∷ []) 1000 two-Blocks
      (omega arith) (omega arith) (omega arith) refl

region_allocate-append_example :
    Ends
      (λ r. (r.0 ≡ 1144) × Blocks r.1 null 1000 (block 0 40) (block 1 8 ∷ block 1 16 ∷ []))
      (region_allocate 10 1000 2000 16 two_blocks)
region_allocate-append_example =
    region_allocate-append 10 1000 2000 16 two_blocks (block 0 40) (block 1 8 ∷ []) 1072 two-Blocks
      (omega arith) (omega arith) (omega arith) (omega arith) (omega arith) refl

four-Row : Row four_blocks 1000 1072 1112 1160 40 8 16
four-Row = record {
  pos = omega arith;
  at_b = refl;
  at_c = refl;
  at_d = refl;
  small = omega arith;
  sig_b = refl;
  sig_c = refl;
  free_a = refl;
  used_b = omega arith;
  used_c = omega arith;
  used_d = omega arith;
  cap_a = refl;
  cap_b = refl;
  cap_c = refl;
  prev_a = refl;
  prev_b = refl;
  prev_c = refl;
  next_b = refl;
  next_c = refl;
}

stale_predecessor_example :
    Ends
      (λ m'.
        ((m' 1000).in_use ≡ 0)
        × ((m' 1000).next ≡ 1160)
        × (1000 + node_size + (m' 1000).capacity ≡ 1160 + node_size + 8))
      (region_deallocate 3 1000 2000 1104 four_blocks >>= region_deallocate 3 1000 2000 1144)
stale_predecessor_example =
    stale_predecessor four_blocks 1000 1072 1112 1160 40 8 16 four-Row 1000 2000 (omega arith)
      (omega arith) (omega arith) 0

allocate-deallocate_example :
    Ends
      (λ m'. Blocks m' null 1000 (block 0 40) (block 1 8 ∷ []))
      (region_allocate 10 1000 2000 16 two_blocks >>= λ r. region_deallocate 5 1000 2000 r.0 r.1)
allocate-deallocate_example =
    allocate-deallocate 4 1000 2000 1000 (block 0 40) (block 1 8 ∷ []) 10 1072 2000 16 two_blocks
      two-Blocks (omega arith) (omega arith) (omega arith) (omega arith) (omega arith) (omega arith)
      (omega arith) (omega arith) refl (omega arith)
