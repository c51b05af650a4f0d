-- ===== src/Memory/Region/Find.antt =====
-- The search for a free block over blocks that lie one behind another.
use simple_os_dev_projs.Base.{
  ℕ, zero, suc, ◌+◌, ◌≤◌, ◌<◌, ◌^◌, ◌≡◌, ◌≢◌, ◌∙◌, Bool, ◌&&◌, List, [], ◌∷◌, arith, ok, ◌==◌,
  if◌then◌else◌, Bool-cases, length, inl, inr,
}
use simple_os_dev_projs.Memory.Word.{sext-small}
use simple_os_dev_projs.Memory.Region.{
  Addr, null, AllocNode, Mem, node_size, Found, reuse, last, is_fit, find_fit,
}
use simple_os_dev_projs.Memory.Region.Blocks.{Block, Blocks, end_of}

abbrev pub fits : ℕ → Block → Bool
fits size b = (b.used == 0) && (b.size == size)

-- The first free block of the size, or the last block.
abbrev pub first_fit : ℕ → Addr → Block → List Block → Found
first_fit size a b [] = if fits size b then reuse a else last a
first_fit size a b (d ∷ ds) =
    if fits size b then reuse a else first_fit size (a + node_size + b.size) d ds

is_fit-fits :
    (size : ℕ) (n : AllocNode) (b : Block)
    → n.in_use ≡ b.used
    → n.capacity ≡ b.size
    → b.size < 2 ^ 31
    → is_fit size n ≡ fits size b
unfolding is_fit
is_fit-fits size n b e c small = rw (e, c, sext-small b.size small)

find_fit-null :
    (f : ℕ) (m : Mem) (size : ℕ) (t q : Addr) → t ≡ null → find_fit (suc f) m size t q ≡ ok (last q)
unfolding find_fit
find_fit-null f m size t q e = ground arith

find_fit-node :
    (f : ℕ) (m : Mem) (size : ℕ) (t q : Addr) (b : Block)
    → t ≢ null
    → is_fit size (m t) ≡ fits size b
    → find_fit (suc f) m size t q
      ≡ (if fits size b then ok (reuse t) else find_fit f m size (m t).next t)
unfolding find_fit
find_fit-node f m size t q b ne e = ground arith

-- The search of the code is the first fit over the blocks.
pub find_fit-first_fit :
    (f : ℕ) (m : Mem) (size : ℕ) (p a q : Addr) (b : Block) (bs : List Block)
    → Blocks m p a b bs
    → 0 < a
    → length bs + 1 < f
    → find_fit f m size a q ≡ ok (first_fit size a b bs)
find_fit-first_fit zero m size p a q b bs h pos less = absurd (omega arith)
find_fit-first_fit (suc zero) m size p a q b bs h pos less = absurd (omega arith)
find_fit-first_fit (suc (suc f)) m size p a q b [] h pos less =
    find_fit-node (suc f) m size a q b (omega arith) (is_fit-fits size (m a) b h.1 h.2 h.5)
    ∙ ground (arith, find_fit-null f m size (m a).next a h.4)
find_fit-first_fit (suc (suc f)) m size p a q b (d ∷ ds) (h, k) pos less =
    find_fit-node (suc f) m size a q b (omega arith) (is_fit-fits size (m a) b h.1 h.2 h.5)
    ∙ rw h.4 (
        ground (
          arith,
          find_fit-first_fit (suc f) m size a (a + node_size + b.size) a d ds k (omega arith)
              (omega arith),
        ))

pub reuse-le :
    (size a : ℕ) (b : Block) (bs : List Block) (t : Addr) → first_fit size a b bs ≡ reuse t → a ≤ t
reuse-le size a b [] t h = ground arith
reuse-le size a b (d ∷ ds) t h = elim (Bool-cases (fits size b)) [
  | inl e ↦ ground arith
  | inr e ↦ omega (arith, reuse-le size (a + node_size + b.size) d ds t (rw e at h))
]

pub last-le :
    (size a : ℕ) (b : Block) (bs : List Block) (t : Addr)
    → first_fit size a b bs ≡ last t
    → (a ≤ t) × (t + node_size ≤ end_of a b bs)
last-le size a b [] t h = ground arith
last-le size a b (d ∷ ds) t h = elim (Bool-cases (fits size b)) [
  | inl e ↦ ground arith
  | inr e ↦ omega (arith, last-le size (a + node_size + b.size) d ds t (rw e at h))
]
