-- ===== src/Memory/Region/Refine.antt =====
-- The allocator keeps its region a row of linked blocks.
use mathlib.Core.Path.{subst}
use simple_os_dev_projs.Base.{
  ℕ, ◌+◌, ◌≤◌, ◌<◌, ◌^◌, ◌≡◌, refl, ◌∙◌, List, [], ◌∷◌, ◌++◌, arith, ok, leb, if_false, length,
  update, Ends, ends,
}
use simple_os_dev_projs.Memory.Word.{sext, sext-small, add64, add64-small, to_int, to_int-small}
use simple_os_dev_projs.Memory.Region.{
  Addr, null, Mem, node_size, magic, reuse, last, settle, append_node, region_allocate,
}
use simple_os_dev_projs.Memory.Region.Blocks.{Block, IsNode, Blocks, end_of}
use simple_os_dev_projs.Memory.Region.Find.{first_fit, find_fit-first_fit, last-le}
use simple_os_dev_projs.Memory.Region.Reuse.{mark_head, mark_tail, Blocks-taken}

-- Memory with a node for a block of `size` bytes at `new`, behind the node at `q`.
abbrev appended : Mem → Addr → Addr → ℕ → Mem
appended m q new size =
    let m1 =
      update m new
        (record (m new) { signature = magic; capacity = to_int size; in_use = 1; prev = q }) in
    let m2 = update m1 q (record (m1 q) { next = new }) in
    update m2 new (record (m2 new) { next = null })

abbrev pub new_block : ℕ → Block
new_block size = record { used = 1; size = size }

appended-new :
    (m : Mem) (q new size : ℕ)
    → q < new
    → size < 2 ^ 31
    → IsNode (appended m q new size) q new (new_block size) null
appended-new m q new size lt small = ground (arith, to_int-small size small)

appended-last :
    (m : Mem) (p q new size n : ℕ) (b : Block)
    → q < new
    → IsNode m p q b n
    → IsNode (appended m q new size) p q b new
appended-last m p q new size n b lt h = ground arith

appended-other :
    (m : Mem) (p q new size a n : ℕ) (b : Block)
    → a < q
    → q < new
    → IsNode m p a b n
    → IsNode (appended m q new size) p a b n
appended-other m p q new size a n b lt lt' h = ground arith

Blocks-appended :
    (m : Mem) (size : ℕ) (p a q : Addr) (b : Block) (bs : List Block)
    → Blocks m p a b bs
    → first_fit size a b bs ≡ last q
    → size < 2 ^ 31
    → Blocks (appended m q (end_of a b bs) size) p a b (bs ++ new_block size ∷ [])
Blocks-appended m size p a q b [] h e small =
    let s : a ≡ q = ground arith in
    subst (λ z. Blocks (appended m z (end_of a b []) size) p a b (new_block size ∷ [])) s
      (
        appended-last m p a (a + node_size + b.size) size null b (omega arith) h,
        appended-new m a (a + node_size + b.size) size (omega arith) small,
      )
Blocks-appended m size p a q b (d ∷ ds) (h, k) e small =
    let e' : first_fit size (a + node_size + b.size) d ds ≡ last q = ground arith in
    let bounds = last-le size (a + node_size + b.size) d ds q e' in
    (
      appended-other m p q (end_of a b (d ∷ ds)) size a (a + node_size + b.size) b
          (omega (arith, bounds)) (omega (arith, bounds)) h,
      Blocks-appended m size a (a + node_size + b.size) q d ds k e' small,
    )

-- The node of the last block leads to the end of the region's blocks.
last-end_of :
    (m : Mem) (size : ℕ) (p a q : Addr) (b : Block) (bs : List Block)
    → Blocks m p a b bs
    → first_fit size a b bs ≡ last q
    → (q + node_size + (m q).capacity ≡ end_of a b bs) × ((m q).capacity < 2 ^ 31)
last-end_of m size p a q b [] h e =
    let s : a ≡ q = ground arith in
    subst (λ z. (z + node_size + (m z).capacity ≡ end_of a b []) × ((m z).capacity < 2 ^ 31)) s
      (omega arith, omega arith)
last-end_of m size p a q b (d ∷ ds) (h, k) e =
    last-end_of m size a (a + node_size + b.size) q d ds k (ground arith)

new_address :
    (q : Addr) (c : ℕ)
    → c < 2 ^ 31
    → q + node_size + c < 2 ^ 64
    → add64 (add64 q node_size) (sext c) ≡ q + node_size + c
new_address q c small below =
    rw (
      sext-small c small,
      add64-small q node_size (omega arith),
      add64-small (q + node_size) c below,
    )

append_node-full :
    (limit size q : ℕ) (m : Mem)
    → (m q).capacity < 2 ^ 31
    → q + node_size + (m q).capacity + size < 2 ^ 64
    → limit ≤ q + node_size + (m q).capacity + size
    → append_node limit size q m ≡ (null, m)
unfolding append_node
append_node-full limit size q m small below full =
    rw
      (
        new_address q (m q).capacity small (omega arith),
        add64-small (q + node_size + (m q).capacity) size below,
      )
      (ground arith)

append_node-ok :
    (limit size q : ℕ) (m : Mem)
    → (m q).capacity < 2 ^ 31
    → q + node_size + (m q).capacity + size + node_size < 2 ^ 64
    → q + node_size + (m q).capacity + size < limit
    → append_node limit size q m ≡ (
      q + node_size + (m q).capacity + node_size,
      appended m q (q + node_size + (m q).capacity) size,
    )
unfolding append_node
append_node-ok limit size q m small below room =
    rw
      (
        new_address q (m q).capacity small (omega arith),
        add64-small (q + node_size + (m q).capacity) size (omega arith),
        add64-small (q + node_size + (m q).capacity) node_size (omega arith),
      )
      (if_false (leb limit (q + node_size + (m q).capacity + size)) (null, m) _ (ground arith))

region_allocate-settle :
    (f head limit size : ℕ) (m : Mem) (b : Block) (bs : List Block)
    → Blocks m null head b bs
    → 0 < head
    → length bs + 1 < f
    → region_allocate f head limit size m ≡ ok (settle limit size m (first_fit size head b bs))
unfolding region_allocate
region_allocate-settle f head limit size m b bs h pos less =
    ground
      (arith, signed m null head b bs h, find_fit-first_fit f m size null head head b bs h pos less)
  where
    signed :
        (m : Mem) (p a : Addr) (b : Block) (bs : List Block)
        → Blocks m p a b bs
        → (m a).signature ≡ magic
    signed m p a b [] h = h.0
    signed m p a b (d ∷ ds) h = h.0.0

module _ (f head limit size : ℕ) (m : Mem) (b : Block) (bs : List Block) where
  -- In a row of linked blocks from an address above 0, where a free block has just the size, the
  -- first such block is given out: the call returns the address behind its node, which is below 2
  -- ^ 64, that block is in use, and the blocks are otherwise the same row. Two rounds more than
  -- there are blocks behind the first are enough.
  pub region_allocate-reuse :
      (t : Addr)
      → Blocks m null head b bs
      → 0 < head
      → length bs + 1 < f
      → t + node_size < 2 ^ 64
      → first_fit size head b bs ≡ reuse t
      → Ends
          (λ r.
            (r.0 ≡ t + node_size) × Blocks r.1 null head (mark_head size b) (mark_tail size b bs))
          (region_allocate f head limit size m)
  unfolding settle
  region_allocate-reuse t h pos less below e =
      rw (region_allocate-settle f head limit size m b bs h pos less, e)
        (ends (add64-small t node_size below, Blocks-taken m size null head t b bs h e))

  -- In a row of linked blocks from an address above 0, where no free block has just the size,
  -- which is below 2 ^ 31, and the bytes fit before the limit, a block of that size in use is put
  -- behind the last one, its node included in the row, and the call returns the address behind the
  -- new node. The limit and a node lie below 2 ^ 64, and two rounds more than there are blocks
  -- behind the first are enough.
  pub region_allocate-append :
      (q : Addr)
      → Blocks m null head b bs
      → 0 < head
      → length bs + 1 < f
      → size < 2 ^ 31
      → end_of head b bs + size < limit
      → limit + node_size < 2 ^ 64
      → first_fit size head b bs ≡ last q
      → Ends
          (λ r.
            (r.0 ≡ end_of head b bs + node_size)
            × Blocks r.1 null head b (bs ++ new_block size ∷ []))
          (region_allocate f head limit size m)
  unfolding settle
  region_allocate-append q h pos less small room below e =
      let (at, cap) = last-end_of m size null head q b bs h e in
      rw
        (
          region_allocate-settle f head limit size m b bs h pos less,
          e,
          append_node-ok limit size q m cap (omega arith) (omega arith),
          at,
        )
        (ends (refl, Blocks-appended m size null head q b bs h e small))

  -- In a row of linked blocks from an address above 0, where no free block has just the size and
  -- the bytes behind the last block reach the limit, without passing 2 ^ 64, the call returns NULL
  -- and memory is as it was. Two rounds more than there are blocks behind the first are enough.
  pub region_allocate-full :
      (q : Addr)
      → Blocks m null head b bs
      → 0 < head
      → length bs + 1 < f
      → end_of head b bs + size < 2 ^ 64
      → limit ≤ end_of head b bs + size
      → first_fit size head b bs ≡ last q
      → region_allocate f head limit size m ≡ ok (null, m)
  unfolding settle
  region_allocate-full q h pos less below full e =
      let (at, cap) = last-end_of m size null head q b bs h e in
      region_allocate-settle f head limit size m b bs h pos less
      ∙ rw (e, append_node-full limit size q m cap (omega arith) (omega arith))
