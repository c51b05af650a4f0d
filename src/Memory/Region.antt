-- ===== src/Memory/Region.antt =====
-- The allocation nodes of totalrecall.h, and the allocator that schedulerallocate and shalloc of
-- totalrecall.c share line for line.
pub mod Reuse
pub mod Blocks
pub mod Find
pub mod Refine
use simple_os_dev_projs.Base.{
  ℕ, zero, suc, Bool, ◌&&◌, Run, ok, spent, ◌>>=◌, ◌==◌, leb, if◌then◌else◌, update,
}
use simple_os_dev_projs.Memory.Word.{sext, add64, to_int}

abbrev pub Addr : Type 0
Addr = ℕ

abbrev pub null : Addr
null = 0

-- `struct AllocNodeN`.
pub record AllocNode : Type 0 where
  pub in_use : ℕ
  pub capacity : ℕ
  pub prev : Addr
  pub next : Addr
  pub signature : ℕ

-- Memory as the node that is read at each address.
abbrev pub Mem : Type 0
Mem = Addr → AllocNode

-- `sizeof(AllocNode)` with 64-bit pointers.
abbrev pub node_size : ℕ
node_size = 32

abbrev pub magic : ℕ
magic = 3233

pub data Found : Type 0 where
  reuse : Addr → Found
  last : Addr → Found

-- `temp -> inUse == 0 && temp -> capacity == size`.
unfoldable pub is_fit : ℕ → AllocNode → Bool
unfolding sext
is_fit size n = (n.in_use == 0) && (sext n.capacity == size)

-- `while (temp != NULL)`: a free node of just the size, or the last node.
unfoldable pub find_fit : ℕ → Mem → ℕ → (temp prev_addr : Addr) → Run Found
find_fit zero m size temp prev_addr = spent
find_fit (suc f) m size temp prev_addr =
    let rest = find_fit f m size (m temp).next temp in
    if temp == null
    then ok (last prev_addr)
    else if is_fit size (m temp)
    then ok (reuse temp)
    else rest

-- Lines 478 to 486: no node has been written yet.
unfoldable pub first_node : Addr → Addr → ℕ → Mem → Addr × Mem
first_node head limit size m =
    let m1 = update m head (record (m head) { signature = magic; next = null; prev = null }) in
    if leb limit (add64 head size) then (null, m1) else (
      add64 head node_size,
      update m1 head (record (m1 head) { in_use = 1; capacity = to_int size }),
    )

-- Lines 502 to 515: a node behind the last one.
unfoldable pub append_node : Addr → ℕ → Addr → Mem → Addr × Mem
append_node limit size p m =
    let new = add64 (add64 p node_size) (sext (m p).capacity) in
    if leb limit (add64 new size)
    then (null, m)
    else (let m1 =
          update m new
            (record (m new) { signature = magic; capacity = to_int size; in_use = 1; prev = p }) in
        let m2 = update m1 p (record (m1 p) { next = new }) in
        (add64 new node_size, update m2 new (record (m2 new) { next = null })))

unfoldable pub settle : Addr → ℕ → Mem → Found → Addr × Mem
settle limit size m (reuse t) = (add64 t node_size, update m t (record (m t) { in_use = 1 }))
settle limit size m (last p) = append_node limit size p m

-- schedulerallocate, with the region's first node and its end.
unfoldable pub region_allocate : ℕ → (head limit : Addr) → ℕ → Mem → Run (Addr × Mem)
region_allocate f head limit size m =
    if (m head).signature == magic
    then (do r ← find_fit f m size head head; ok (settle limit size m r))
    else ok (first_node head limit size m)
