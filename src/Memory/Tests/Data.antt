-- ===== src/Memory/Tests/Data.antt =====
-- Small regions.
use simple_os_dev_projs.Base.{ℕ, refl, [], ◌∷◌, ◌==◌, if◌then◌else◌, arith}
use simple_os_dev_projs.Memory.Region.{Addr, null, magic, AllocNode, Mem}
use simple_os_dev_projs.Memory.Region.Blocks.{Block, Blocks}

abbrev pub alloc_node : (used size : ℕ) → (p n : Addr) → AllocNode
alloc_node used size p n = record {
  in_use = used;
  capacity = size;
  prev = p;
  next = n;
  signature = magic;
}

abbrev pub blank : AllocNode
blank = record { in_use = 0; capacity = 0; prev = 0; next = 0; signature = 0 }

abbrev pub block : (used size : ℕ) → Block
block used size = record { used = used; size = size }

-- A free block of 40 bytes at 1000, then blocks in use of 8, 16 and 24 bytes.
abbrev pub two_blocks : Mem
two_blocks p =
    if p == 1000 then alloc_node 0 40 0 1072 else if p == 1072 then alloc_node 1 8 1000 0 else blank

abbrev pub three_blocks : Mem
three_blocks p =
    if p == 1000
    then alloc_node 0 40 0 1072
    else if p == 1072
    then alloc_node 1 8 1000 1112
    else if p == 1112
    then alloc_node 1 16 1072 0
    else blank

abbrev pub four_blocks : Mem
four_blocks p =
    if p == 1000
    then alloc_node 0 40 0 1072
    else if p == 1072
    then alloc_node 1 8 1000 1112
    else if p == 1112
    then alloc_node 1 16 1072 1160
    else if p == 1160
    then alloc_node 1 24 1112 0
    else blank

pub two-Blocks : Blocks two_blocks null 1000 (block 0 40) (block 1 8 ∷ [])
two-Blocks =
    ((refl, refl, refl, refl, refl, omega arith), (refl, refl, refl, refl, refl, omega arith))

pub three-Blocks : Blocks three_blocks null 1000 (block 0 40) (block 1 8 ∷ block 1 16 ∷ [])
three-Blocks = (
  (refl, refl, refl, refl, refl, omega arith),
  ((refl, refl, refl, refl, refl, omega arith), (refl, refl, refl, refl, refl, omega arith)),
)
