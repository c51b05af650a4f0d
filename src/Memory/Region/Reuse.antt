-- ===== src/Memory/Region/Reuse.antt =====
-- A free block of the size is given out again.
use mathlib.Core.Path.{subst}
use simple_os_dev_projs.Base.{
  ℕ, ◌+◌, ◌≡◌, ◌≢◌, true, List, [], ◌∷◌, arith, if◌then◌else◌, Bool-cases, inl, inr, update,
}
use simple_os_dev_projs.Memory.Region.{Addr, null, Mem, node_size, reuse}
use simple_os_dev_projs.Memory.Region.Blocks.{Block, IsNode, Blocks, Blocks-update}
use simple_os_dev_projs.Memory.Region.Find.{fits, first_fit, reuse-le}

-- The blocks with the first fit in use.
abbrev pub mark_head : ℕ → Block → Block
mark_head size b = if fits size b then record b { used = 1 } else b

abbrev pub mark_tail : ℕ → Block → List Block → List Block
mark_tail size b [] = []
mark_tail size b (d ∷ ds) = if fits size b then d ∷ ds else mark_head size d ∷ mark_tail size d ds

abbrev taken : Mem → Addr → Mem
taken m t = update m t (record (m t) { in_use = 1 })

taken-head :
    (m : Mem) (p a n : Addr) (b : Block)
    → IsNode m p a b n
    → IsNode (taken m a) p a (record b { used = 1 }) n
taken-head m p a n b h = ground arith

taken-other :
    (m : Mem) (p a t n : Addr) (b : Block) → a ≢ t → IsNode m p a b n → IsNode (taken m t) p a b n
taken-other m p a t n b ne h = ground arith

first_fit-head :
    (size a t : ℕ) (b : Block) (bs : List Block)
    → fits size b ≡ true
    → first_fit size a b bs ≡ reuse t
    → a ≡ t
first_fit-head size a t b [] y e = ground arith
first_fit-head size a t b (d ∷ ds) y e = ground arith

pub Blocks-taken :
    (m : Mem) (size : ℕ) (p a t : Addr) (b : Block) (bs : List Block)
    → Blocks m p a b bs
    → first_fit size a b bs ≡ reuse t
    → Blocks (taken m t) p a (mark_head size b) (mark_tail size b bs)
Blocks-taken m size p a t b [] h e = elim (Bool-cases (fits size b)) [
  | inl y ↦ rw y (
      subst (λ z. Blocks (taken m z) p a (record b { used = 1 }) [])
        (first_fit-head size a t b [] y e) (taken-head m p a null b h))
  | inr n ↦ absurd (ground arith)
]
Blocks-taken m size p a t b (d ∷ ds) (h, k) e = elim (Bool-cases (fits size b)) [
  | inl y ↦ rw y (
      subst (λ z. Blocks (taken m z) p a (record b { used = 1 }) (d ∷ ds))
        (first_fit-head size a t b (d ∷ ds) y e)
        (
          taken-head m p a (a + node_size + b.size) b h,
          Blocks-update m a (a + node_size + b.size) a _ d ds (omega arith) k,
        ))
  | inr n ↦
      let e' : first_fit size (a + node_size + b.size) d ds ≡ reuse t = rw n at e in
      rw n (
        taken-other m p a t (a + node_size + b.size) b
            (omega (arith, reuse-le size (a + node_size + b.size) d ds t e')) h,
        Blocks-taken m size a (a + node_size + b.size) t d ds k e',
      )
]
