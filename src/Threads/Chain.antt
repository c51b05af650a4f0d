-- ===== src/Threads/Chain.antt =====
-- Lists of nodes in the store of the thread library: where the `next` pointers lead.
use mathlib.Core.Path.{subst}
use simple_os_dev_projs.Base.{
  ◌≡◌, ◌≢◌, ◌↔◌, refl, sym, ◌∙◌, some, List, [], ◌∷◌, ◌++◌, arith, ok, update, ℕ_discrete,
}
use simple_os_dev_projs.Threads.State.{Ptr, null, Node, Cells, load, next_of, set_next}

-- From `p` the `next` pointers lead through the nodes `xs` to `stop`.
abbrev pub Chain : Cells → Ptr → Ptr → List Ptr → Type 0
Chain c stop p [] = p ≡ stop
Chain c stop p (x ∷ xs) =
    (n : Node) × (p ≡ x) × (x ≢ null) × (c x ≡ some n) × Chain c stop n.next xs

abbrev pub Absent : Ptr → List Ptr → Type 0
Absent a [] = Unit
Absent a (x ∷ xs) = (a ≢ x) × Absent a xs

pub load-some : (c : Cells) (p : Ptr) {n : Node} → p ≢ null → c p ≡ some n → load c p ≡ ok n
unfolding load
load-some c p h e = ground arith

pub next_of-some :
    (c : Cells) (p : Ptr) {n : Node} → p ≢ null → c p ≡ some n → next_of c p ≡ ok n.next
unfolding next_of load
next_of-some c p h e = ground arith

pub set_next-some :
    (c : Cells) (p q : Ptr) {n : Node}
    → p ≢ null
    → c p ≡ some n
    → set_next c p q ≡ ok (update c p (some (record n { next = q })))
unfolding set_next load
set_next-some c p q h e = ground arith

-- A chain survives a write outside it.
pub Chain-update :
    (c : Cells) (stop p a : Ptr) (n : Node) (xs : List Ptr)
    → Absent a xs
    → Chain c stop p xs
    → Chain (update c a (some n)) stop p xs
Chain-update c stop p a n [] out h = h
Chain-update c stop p a n (x ∷ xs) out (m, e, ne, at, rest) =
    (m, e, ne, ground arith, Chain-update c stop m.next a n xs out.1 rest)

abbrev pub Distinct : List Ptr → Type 0
Distinct [] = Unit
Distinct (x ∷ xs) = Absent x xs × Distinct xs

pub Absent-append : (a : Ptr) (xs ys : List Ptr) → Absent a (xs ++ ys) ↔ (Absent a xs × Absent a ys)
Absent-append a [] ys = (λ h. (tt, h), λ h. h.1)
Absent-append a (x ∷ xs) ys = (
  λ h. let r = (Absent-append a xs ys).0 h.1 in ((h.0, r.0), r.1),
  λ h. (h.0.0, (Absent-append a xs ys).1 (h.0.1, h.1)),
)

-- The parts of a list of distinct nodes share no node.
pub Distinct-append :
    (xs ys : List Ptr)
    → Distinct (xs ++ ys)
    → Distinct xs × Distinct ys × ((a : Ptr) → ¬ Absent a xs → Absent a ys)
Distinct-append [] ys h = (tt, h, λ a n. absurd (n tt))
Distinct-append (x ∷ xs) ys (out, h) =
    let r = Distinct-append xs ys h in
    let o = (Absent-append x xs ys).0 out in
    (
      (o.0, r.0),
      r.1,
      λ a n. elim (ℕ_discrete a x) [ yes e ↦ rw e o.1 | no ne ↦ r.2 a (λ m. n (ne, m)) ],
    )

pub Chain-append :
    (c : Cells) (stop mid p : Ptr) (xs ys : List Ptr)
    → Chain c mid p xs
    → Chain c stop mid ys
    → Chain c stop p (xs ++ ys)
Chain-append c stop mid p [] ys h k = subst (λ z. Chain c stop z ys) (sym h) k
Chain-append c stop mid p (x ∷ xs) ys (n, e, ne, at, rest) k =
    (n, e, ne, at, Chain-append c stop mid n.next xs ys rest k)

-- A chain looks only at its own cells.
pub Chain-frame :
    (c d : Cells) (stop p : Ptr) (xs : List Ptr)
    → ((a : Ptr) → ¬ Absent a xs → d a ≡ c a)
    → Chain c stop p xs
    → Chain d stop p xs
Chain-frame c d stop p [] same h = h
Chain-frame c d stop p (x ∷ xs) same (n, e, ne, at, rest) = (
  n,
  e,
  ne,
  same x (λ o. o.0 refl) ∙ at,
  Chain-frame c d stop n.next xs (λ a o. same a (λ both. o both.1)) rest,
)
