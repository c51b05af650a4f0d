-- ===== src/Threads/Apart.antt =====
-- Lists that share no node.
use mathlib.Core.Path.{subst}
use simple_os_dev_projs.Base.{◌↔◌, sym, List, [], ◌∷◌, ◌++◌, ℕ_discrete}
use simple_os_dev_projs.Threads.State.{Ptr}
use simple_os_dev_projs.Threads.Chain.{Absent, Distinct, Absent-append}

abbrev pub Apart : List Ptr → List Ptr → Type 0
Apart [] ys = Unit
Apart (x ∷ xs) ys = Absent x ys × Apart xs ys

pub Apart-nil : (xs : List Ptr) → Apart xs []
Apart-nil [] = tt
Apart-nil (x ∷ xs) = (tt, Apart-nil xs)

pub Apart-cons : (y : Ptr) (xs ys : List Ptr) → Absent y xs → Apart xs ys → Apart xs (y ∷ ys)
Apart-cons y [] ys out h = tt
Apart-cons y (x ∷ xs) ys out h = ((λ e. out.0 (sym e), h.0), Apart-cons y xs ys out.1 h.1)

Apart-tail : (y : Ptr) (xs ys : List Ptr) → Apart xs (y ∷ ys) → Absent y xs × Apart xs ys
Apart-tail y [] ys h = (tt, tt)
Apart-tail y (x ∷ xs) ys h =
    let r = Apart-tail y xs ys h.1 in ((λ e. h.0.0 (sym e), r.0), (h.0.1, r.1))

pub Apart-sym : (xs ys : List Ptr) → Apart xs ys → Apart ys xs
Apart-sym xs [] h = tt
Apart-sym xs (y ∷ ys) h = let r = Apart-tail y xs ys h in (r.0, Apart-sym xs ys r.1)

-- Either side may be an appended list.
pub Apart-left : (xs ys zs : List Ptr) → Apart (xs ++ ys) zs ↔ (Apart xs zs × Apart ys zs)
Apart-left [] ys zs = (λ h. (tt, h), λ h. h.1)
Apart-left (x ∷ xs) ys zs = (
  λ h. let r = (Apart-left xs ys zs).0 h.1 in ((h.0, r.0), r.1),
  λ h. (h.0.0, (Apart-left xs ys zs).1 (h.0.1, h.1)),
)

pub Apart-right : (xs ys zs : List Ptr) → Apart xs (ys ++ zs) ↔ (Apart xs ys × Apart xs zs)
Apart-right [] ys zs = (λ h. (tt, tt), λ h. tt)
Apart-right (x ∷ xs) ys zs = (
  λ h.
      let r = (Apart-right xs ys zs).0 h.1 in
      let o = (Absent-append x ys zs).0 h.0 in ((o.0, r.0), (o.1, r.1)),
  λ h. ((Absent-append x ys zs).1 (h.0.0, h.1.0), (Apart-right xs ys zs).1 (h.0.1, h.1.1)),
)

-- What is in one list is absent from the other.
pub Apart-Absent : (a : Ptr) (xs ys : List Ptr) → Apart xs ys → ¬ Absent a xs → Absent a ys
Apart-Absent a [] ys h inside = absurd (inside tt)
Apart-Absent a (x ∷ xs) ys h inside = elim (ℕ_discrete a x) [
  | yes e ↦ subst (λ z. Absent z ys) (sym e) h.0
  | no ne ↦ Apart-Absent a xs ys h.1 (λ out. inside (ne, out))
]

pub Distinct-append_iff :
    (xs ys : List Ptr) → Distinct (xs ++ ys) ↔ (Distinct xs × Distinct ys × Apart xs ys)
Distinct-append_iff [] ys = (λ h. (tt, h, tt), λ h. h.1)
Distinct-append_iff (x ∷ xs) ys = (
  λ h.
      let r = (Distinct-append_iff xs ys).0 h.1 in
      let o = (Absent-append x xs ys).0 h.0 in ((o.0, r.0), r.1, (o.1, r.2)),
  λ h.
      ((Absent-append x xs ys).1 (h.0.0, h.2.0), (Distinct-append_iff xs ys).1 (h.0.1, h.1, h.2.1)),
)
