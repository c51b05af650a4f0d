-- ===== src/Memory/Region/Blocks.antt =====
-- Blocks that lie one behind another, and their nodes.
use simple_os_dev_projs.Base.{ℕ, ◌+◌, ◌≤◌, ◌<◌, ◌^◌, ◌≡◌, List, [], ◌∷◌, arith, update}
use simple_os_dev_projs.Memory.Region.{Addr, null, AllocNode, Mem, node_size, magic}

-- A block: its flag and the bytes that it holds.
pub record Block : Type 0 where
  pub used : ℕ
  pub size : ℕ

abbrev pub IsNode : Mem → Addr → Addr → Block → Addr → Type 0
IsNode m p a b n =
    ((m a).signature ≡ magic)
    × ((m a).in_use ≡ b.used)
    × ((m a).capacity ≡ b.size)
    × ((m a).prev ≡ p)
    × ((m a).next ≡ n)
    × (b.size < 2 ^ 31)

-- From address `a` on lie the blocks `b ∷ bs`, each with its node before it, and the nodes are linked
-- both ways; the first one's predecessor is `p`.
abbrev pub Blocks : Mem → Addr → Addr → Block → List Block → Type 0
Blocks m p a b [] = IsNode m p a b null
Blocks m p a b (d ∷ ds) =
    IsNode m p a b (a + node_size + b.size) × Blocks m a (a + node_size + b.size) d ds

-- The address behind the last block.
abbrev pub end_of : Addr → Block → List Block → Addr
end_of a b [] = a + node_size + b.size
end_of a b (d ∷ ds) = end_of (a + node_size + b.size) d ds

pub lt-end_of : (a : Addr) (b : Block) (bs : List Block) → a + node_size ≤ end_of a b bs
lt-end_of a b [] = omega arith
lt-end_of a b (d ∷ ds) = omega (arith, lt-end_of (a + node_size + b.size) d ds)

-- A write below the first node changes no block.
pub Blocks-update :
    (m : Mem) (p a t : Addr) (n : AllocNode) (b : Block) (bs : List Block)
    → t < a
    → Blocks m p a b bs
    → Blocks (update m t n) p a b bs
Blocks-update m p a t n b [] h k = ground arith
Blocks-update m p a t n b (d ∷ ds) h k =
    (ground arith, Blocks-update m a (a + node_size + b.size) t n d ds (omega arith) k.1)
