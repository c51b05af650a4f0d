-- ===== src/Memory/Release.antt =====
-- mydeallocate of Memory_Manager/totalrecall.c for one region.
pub mod Refuse
pub mod Undo
pub mod Stale
pub mod Twice
use simple_os_dev_projs.Base.{
  ℕ, zero, suc, ◌+◌, ◌-◌, ◌%◌, ◌^◌, Bool, ◌||◌, not, Run, ok, spent, ◌>>=◌, ◌==◌, ltb, leb,
  if◌then◌else◌, update,
}
use simple_os_dev_projs.Memory.Word.{sext, to_int}
use simple_os_dev_projs.Memory.Region.{Addr, null, AllocNode, Mem, node_size, magic}

-- `capacity + sizeof(AllocNode) + capacity`, stored in an `int`.
unfoldable pub merged : ℕ → ℕ → ℕ
merged c d = to_int (sext c + node_size + sext d)

-- The node at `c` disappears into its predecessor, lines 677 to 679.
unfoldable pub absorb : Addr → Mem → Mem
absorb c m =
    let p = (m c).prev in
    let m1 = update m c (record (m c) { signature = 0 }) in
    let m2 = update m1 p (record (m1 p) { next = (m1 c).next }) in
    update m2 p (record (m2 p) { capacity = merged (m2 p).capacity (m2 c).capacity })

-- Lines 675 to 684: the node that is left and memory.
unfoldable pub merge_back : ℕ → Addr → Mem → Run (Addr × Mem)
merge_back zero c m = spent
merge_back (suc f) c m =
    let rest = merge_back f (m c).prev (absorb c m) in
    if (m c).prev == null then ok (c, m) else if (m (m c).prev).in_use == 0 then rest else ok (c, m)

-- The successor of the node at `c` disappears into it, lines 690 to 692.
unfoldable pub swallow : Addr → Mem → Mem
swallow c m =
    let n = (m c).next in
    let m1 = update m n (record (m n) { signature = 0 }) in
    let m2 = update m1 c (record (m1 c) { capacity = merged (m1 n).capacity (m1 c).capacity }) in
    update m2 c (record (m2 c) { next = (m2 (m2 c).next).next })

-- Lines 688 to 696.
unfoldable pub merge_forward : ℕ → Addr → Mem → Run Mem
merge_forward zero c m = spent
merge_forward (suc f) c m =
    let rest = merge_forward f c (swallow c m) in
    if (m c).next == null then ok m else if (m (m c).next).in_use == 0 then rest else ok m

-- Lines 699 to 709: a node with nothing behind it is deleted.
unfoldable pub delete_last : Addr → Mem → Mem
delete_last c m =
    if (m c).next == null
    then (let m1 = update m c (record (m c) { signature = 0; capacity = 0 }) in
        let m2 =
          if (m1 c).prev == null
          then m1
          else update m1 (m1 c).prev (record (m1 (m1 c).prev) { next = null }) in
        update m2 c (record (m2 c) { prev = null }))
    else m

-- `(AllocNode*)ptr - 1`.
unfoldable pub node_of : Addr → Addr
node_of ptr = (ptr + 2 ^ 64 - node_size) % 2 ^ 64

-- Lines 644 to 668: the pointer lies outside the region, or no node in use is in front of it.
unfoldable pub is_refused : Addr → Addr → Addr → Mem → Bool
is_refused lo hi ptr m =
    (ltb ptr lo || leb hi ptr)
    || (not ((m (node_of ptr)).signature == magic) || ((m (node_of ptr)).in_use == 0))

-- mydeallocate of `ptr` in the region from `lo` up to `hi`.
unfoldable pub region_deallocate : ℕ → (lo hi ptr : Addr) → Mem → Run Mem
region_deallocate f lo hi ptr m =
    let c = node_of ptr in
    let freed = (do
      (c', m1) ← merge_back f c (update m c (record (m c) { in_use = 0 }))
      m2 ← merge_forward f c' m1
      ok (delete_last c' m2)) in
    if is_refused lo hi ptr m then ok m else freed
