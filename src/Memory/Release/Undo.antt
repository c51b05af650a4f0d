-- ===== src/Memory/Release/Undo.antt =====
-- Freeing the last block takes back what the allocator appended.
use mathlib.Core.Path.{subst}
use simple_os_dev_projs.Base.{
  ℕ, suc, ◌+◌, ◌≤◌, ◌<◌, ◌^◌, ◌≡◌, ◌≢◌, ◌∙◌, List, [], ◌∷◌, ◌++◌, arith, ◌>>=◌, ◌==◌, update, Ends,
  ends, Ends-bind, length, if_true, if_false, ap, sym, Ends-weaken,
}
use simple_os_dev_projs.Memory.Region.{Addr, null, Mem, node_size, last, region_allocate}
use simple_os_dev_projs.Memory.Region.Blocks.{Block, IsNode, Blocks, end_of}
use simple_os_dev_projs.Memory.Region.Find.{first_fit}
use simple_os_dev_projs.Memory.Region.Refine.{new_block, region_allocate-append}
use simple_os_dev_projs.Memory.Release.{delete_last, region_deallocate}
use simple_os_dev_projs.Memory.Release.Refuse.{
  merge_back-stop, merge_forward-last, region_deallocate-accepts,
}

abbrev pub last_address : Addr → Block → List Block → Addr
last_address a b [] = a
last_address a b (d ∷ ds) = last_address (a + node_size + b.size) d ds

abbrev pub last_block : Block → List Block → Block
last_block b [] = b
last_block b (d ∷ ds) = last_block d ds

last_address-le :
    (a : Addr) (b : Block) (bs : List Block)
    → (a ≤ last_address a b bs) × (last_address a b bs + node_size ≤ end_of a b bs)
last_address-le a b [] = omega arith
last_address-le a b (d ∷ ds) = omega (arith, last_address-le (a + node_size + b.size) d ds)

-- The node behind the blocks `b ∷ bs`, and the one before it.
last_nodes :
    (m : Mem) (p a : Addr) (b n : Block) (bs : List Block)
    → Blocks m p a b (bs ++ n ∷ [])
    → IsNode m (last_address a b bs) (end_of a b bs) n null
      × ((m (last_address a b bs)).in_use ≡ (last_block b bs).used)
last_nodes m p a b n [] (h, k) = (k, h.1)
last_nodes m p a b n (d ∷ ds) (h, k) = last_nodes m a (a + node_size + b.size) d n ds k

abbrev freed : Mem → Addr → Mem
freed m t = update m t (record (m t) { in_use = 0 })

-- Memory once the node at `c` behind the node at `q` is deleted.
abbrev dropped : Mem → Addr → Addr → Mem
dropped m q c =
    let m1 = update (freed m c) c (record (freed m c c) { signature = 0; capacity = 0 }) in
    let m2 = update m1 q (record (m1 q) { next = null }) in
    update m2 c (record (m2 c) { prev = null })

dropped-before :
    (m : Mem) (p a q c n : Addr) (b : Block)
    → a < q
    → q < c
    → IsNode m p a b n
    → IsNode (dropped m q c) p a b n
dropped-before m p a q c n b lt lt' h = ground arith

dropped-last :
    (m : Mem) (p q c n : Addr) (b : Block)
    → q < c
    → IsNode m p q b n
    → IsNode (dropped m q c) p q b null
dropped-last m p q c n b lt h = ground arith

Blocks-dropped :
    (m : Mem) (p a : Addr) (b n : Block) (bs : List Block)
    → Blocks m p a b (bs ++ n ∷ [])
    → Blocks (dropped m (last_address a b bs) (end_of a b bs)) p a b bs
Blocks-dropped m p a b n [] (h, k) =
    dropped-last m p a (a + node_size + b.size) (a + node_size + b.size) b (omega arith) h
Blocks-dropped m p a b n (d ∷ ds) (h, k) =
    let le = last_address-le (a + node_size + b.size) d ds in
    (
      dropped-before m p a (last_address a b (d ∷ ds)) (end_of a b (d ∷ ds))
          (a + node_size + b.size) b (omega (arith, le)) (omega (arith, le)) h,
      Blocks-dropped m a (a + node_size + b.size) d n ds k,
    )

abbrev without_next : Addr → Mem → Mem
without_next q m = update m q (record (m q) { next = null })

abbrev without_prev : Addr → Mem → Mem
without_prev c m = update m c (record (m c) { prev = null })

delete_last-dropped :
    (m : Mem) (q c : Addr)
    → q ≢ null
    → (m c).prev ≡ q
    → (m c).next ≡ null
    → delete_last c (freed m c) ≡ dropped m q c
unfolding delete_last
delete_last-dropped m q c ne e e' =
    let m1 = update (freed m c) c (record (freed m c c) { signature = 0; capacity = 0 }) in
    let e1 : (m1 c).prev ≡ q = ground (arith, e) in
    if_true ((freed m c c).next == null) _ (freed m c) (ground (arith, e'))
    ∙ ap (without_prev c) (
        if_false ((m1 c).prev == null) m1 (without_next (m1 c).prev m1) (ground (arith, e1))
        ∙ ap (λ z. without_next z m1) e1)

stops :
    (m : Mem) (q c : Addr)
    → q < c
    → (m c).prev ≡ q
    → (m q).in_use ≢ 0
    → (freed m c (freed m c c).prev).in_use ≢ 0
stops m q c lt e ne = ground (arith, e)

gone : (m : Mem) (q c : Addr) → q < c → (dropped m q c c).signature ≡ 0
gone m q c lt = ground arith

module _ (f lo hi head : ℕ) (b : Block) (bs : List Block) where
  -- In a row of linked blocks that lies in the region, freeing a block in use that lies behind
  -- another block in use, and behind which there is nothing, deletes it: the other blocks are left
  -- as they were, and no node stands at its place.
  pub region_deallocate-last :
      (n : Block) (m : Mem)
      → Blocks m null head b (bs ++ n ∷ [])
      → 0 < head
      → lo ≤ head
      → end_of head b bs + node_size < hi
      → hi ≤ 2 ^ 64
      → n.used ≢ 0
      → (last_block b bs).used ≢ 0
      → Ends
          (λ m'. Blocks m' null head b bs × ((m' (end_of head b bs)).signature ≡ 0))
          (region_deallocate (suc f) lo hi (end_of head b bs + node_size) m)
  region_deallocate-last n m h pos low high word used before =
      let q = last_address head b bs in
      let c = end_of head b bs in
      let (node, front) = last_nodes m null head b n bs h in
      let le = last_address-le head b bs in
      let stop : (freed m c (freed m c c).prev).in_use ≢ 0 =
        stops m q c (omega (arith, le)) node.3 (λ z. before (omega (arith, front))) in
      rw
        (
          region_deallocate-accepts (suc f) lo hi c m (omega (arith, le)) high word node.0
              (λ e. used (ground arith)),
          merge_back-stop f c (freed m c) stop,
          merge_forward-last f c (freed m c) (ground (arith, node.4)),
          delete_last-dropped m q c (omega (arith, le)) node.3 node.4,
        )
        (ends (Blocks-dropped m null head b n bs h, gone m q c (omega (arith, le))))

  -- In a row of linked blocks of which the last is in use, what the allocator appends, a free of
  -- the address that it returned takes back: the row of blocks is the one before the allocation.
  -- No free block has just the size, which is below 2 ^ 31 and fits before the limit, the new
  -- block's address lies in the region that the free looks at, and the rounds suffice for the
  -- search.
  pub allocate-deallocate :
      (g q limit size : ℕ) (m : Mem)
      → Blocks m null head b bs
      → 0 < head
      → lo ≤ head
      → length bs + 1 < g
      → size < 2 ^ 31
      → end_of head b bs + size < limit
      → limit + node_size < 2 ^ 64
      → end_of head b bs + node_size < hi
      → hi ≤ 2 ^ 64
      → first_fit size head b bs ≡ last q
      → (last_block b bs).used ≢ 0
      → Ends
          (λ m'. Blocks m' null head b bs)
          (region_allocate g head limit size m >>= λ r. region_deallocate (suc f) lo hi r.0 r.1)
  allocate-deallocate g q limit size m h pos low less small room below high word e before =
      Ends-bind (region_allocate-append g head limit size m b bs q h pos less small room below e)
        λ r d.
          subst (λ z. Ends (λ m'. Blocks m' null head b bs) (region_deallocate (suc f) lo hi z r.1))
            (sym d.0)
            (Ends-weaken
              (region_deallocate-last (new_block size) r.1 d.1 pos low high word (omega arith)
                before)
              (λ m' z. z.0))
