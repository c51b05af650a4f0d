-- ===== src/Threads/Load/Relink.antt =====
-- The running queue as a list, and the write that extends it.
use mathlib.Core.Path.{subst}
use simple_os_dev_projs.Base.{
  ◌≡◌, ◌≢◌, refl, ◌∙◌, some, List, [], ◌∷◌, ◌++◌, arith, update, update_ne,
}
use simple_os_dev_projs.Threads.State.{Ptr, null, Node, Queue, Cells}
use simple_os_dev_projs.Threads.Chain.{Chain, Absent, Distinct, Chain-frame}

abbrev pub IsLast : Ptr → List Ptr → Type 0
IsLast t [] = ⊥
IsLast t (x ∷ []) = t ≡ x
IsLast t (x ∷ y ∷ xs) = IsLast t (y ∷ xs)

-- The running queue holds the nodes `ys`, and the `next` of the last one is `stop`.
abbrev pub Running : Cells → Queue → Ptr → List Ptr → Type 0
Running c r stop [] = r.head ≡ null
Running c r stop (y ∷ ys) = Chain c stop r.head (y ∷ ys) × IsLast r.tail (y ∷ ys)

pub IsLast-append : (t : Ptr) (xs : List Ptr) → IsLast t (xs ++ t ∷ [])
IsLast-append t [] = refl
IsLast-append t (x ∷ []) = refl
IsLast-append t (x ∷ y ∷ xs) = IsLast-append t (y ∷ xs)

pub IsLast-mem : (t : Ptr) (xs : List Ptr) → IsLast t xs → ¬ Absent t xs
IsLast-mem t (x ∷ []) e out = out.0 e
IsLast-mem t (x ∷ y ∷ xs) e out = IsLast-mem t (y ∷ xs) e out.1
IsLast-mem t [] e out = e

pub last_node :
    (c : Cells) (stop p t : Ptr) (xs : List Ptr)
    → Chain c stop p xs
    → IsLast t xs
    → (n : Node) × (t ≢ null) × (c t ≡ some n)
last_node c stop p t [] h l = absurd l
last_node c stop p t (x ∷ []) (n, e, ne, at, rest) l = (n, rw l ne, rw l at)
last_node c stop p t (x ∷ y ∷ xs) (n, e, ne, at, rest) l = last_node c stop n.next t (y ∷ xs) rest l

-- A write of the last node's `next` changes where the chain ends.
pub Chain-relink :
    (c : Cells) (stop p t q : Ptr) (n : Node) (xs : List Ptr)
    → Chain c stop p xs
    → Distinct xs
    → IsLast t xs
    → c t ≡ some n
    → Chain (update c t (some (record n { next = q }))) q p xs
Chain-relink c stop p t q n [] h d l at = absurd l
Chain-relink c stop p t q n (x ∷ []) (m, e, ne, there, rest) d l at =
    (record n { next = q }, e, ne, ground arith, refl)
Chain-relink c stop p t q n (x ∷ y ∷ xs) (m, e, ne, there, rest) d l at =
    let apart : x ≢ t = λ s. IsLast-mem t (y ∷ xs) l (subst (λ z. Absent z (y ∷ xs)) s d.0) in
    (
      m,
      e,
      ne,
      update_ne c t _ x apart ∙ there,
      Chain-relink c stop m.next t q n (y ∷ xs) rest d.1 l at,
    )

-- A priority queue that holds the nodes `xs`.
abbrev pub IsQueue : Cells → Queue → List Ptr → Type 0
IsQueue c q [] = (q.head ≡ null) × (q.tail ≡ null)
IsQueue c q (x ∷ xs) = Chain c null q.head (x ∷ xs) × IsLast q.tail (x ∷ xs)

pub IsQueue-Chain :
    (c : Cells) (q : Queue) (xs : List Ptr) → IsQueue c q xs → Chain c null q.head xs
IsQueue-Chain c q [] h = h.0
IsQueue-Chain c q (x ∷ xs) h = h.0

pub IsQueue-frame :
    (c d : Cells) (q : Queue) (xs : List Ptr)
    → ((a : Ptr) → ¬ Absent a xs → d a ≡ c a)
    → IsQueue c q xs
    → IsQueue d q xs
IsQueue-frame c d q [] same h = h
IsQueue-frame c d q (x ∷ xs) same h = (Chain-frame c d null q.head (x ∷ xs) same h.0, h.1)

-- A queue whose last node points to `stop`.
abbrev pub QueueTo : Cells → (stop : Ptr) → Queue → List Ptr → Type 0
QueueTo c stop q [] = (q.head ≡ null) × (q.tail ≡ null)
QueueTo c stop q (x ∷ xs) = Chain c stop q.head (x ∷ xs) × IsLast q.tail (x ∷ xs)

pub IsQueue-QueueTo : (c : Cells) (q : Queue) (xs : List Ptr) → IsQueue c q xs → QueueTo c null q xs
IsQueue-QueueTo c q [] h = h
IsQueue-QueueTo c q (x ∷ xs) h = h

pub QueueTo-frame :
    (c d : Cells) (stop : Ptr) (q : Queue) (xs : List Ptr)
    → ((a : Ptr) → ¬ Absent a xs → d a ≡ c a)
    → QueueTo c stop q xs
    → QueueTo d stop q xs
QueueTo-frame c d stop q [] same h = h
QueueTo-frame c d stop q (x ∷ xs) same h = (Chain-frame c d stop q.head (x ∷ xs) same h.0, h.1)
