-- ===== src/FileSystem/Path/Tree.antt =====
-- The tree that the inodes on the disk are: children, and where names lead.
use simple_os_dev_projs.Base.{
  ℕ, zero, suc, ◌+◌, ◌≤◌, ◌<◌, ◌≡◌, ◌⊎◌, inl, inr, refl, ap, Bool, true, false, Bool-cases, Option,
  none, some, List, [], ◌∷◌, arith, ◌==◌, if_true, if_false, if◌then◌else◌,
}
use simple_os_dev_projs.FileSystem.Disk.{Disk}
use simple_os_dev_projs.FileSystem.Inode.{at_name, no_ref, block_ptr, inode_offset}
use simple_os_dev_projs.FileSystem.Inode.Reading.{home_of}
use simple_os_dev_projs.FileSystem.Path.{name_is}

-- An entry of a directory, or of what is taken for one.
abbrev pub child : Disk → (inumb i : ℕ) → ℕ
child d inumb i = block_ptr (inode_offset inumb) i (d (home_of inumb))

-- The entries before the first -1, among `k` from entry `i` on.
abbrev pub children_from : Disk → (inumb k i : ℕ) → List ℕ
children_from d inumb zero i = []
children_from d inumb (suc k) i =
    let rest = children_from d inumb k (suc i) in
    if child d inumb i == no_ref then [] else child d inumb i ∷ rest

abbrev pub children : Disk → ℕ → List ℕ
children d inumb = children_from d inumb 10 0

abbrev pub is_named : Disk → List ℕ → ℕ → Bool
is_named d token inumb = name_is (d (home_of inumb)) (inode_offset inumb + at_name) token

-- The first child of the name.
abbrev pub first_named : Disk → (token : List ℕ) → List ℕ → Option ℕ
first_named d token [] = none
first_named d token (c ∷ cs) =
    let rest = first_named d token cs in if is_named d token c then some c else rest

-- The inode that names lead to from inode `inumb`.
abbrev pub resolve : Disk → List (List ℕ) → (inumb : ℕ) → Option ℕ
resolve d [] inumb = some inumb
resolve d (token ∷ ts) inumb = elim (first_named d token (children d inumb)) [
  | none ↦ none
  | some c ↦ resolve d ts c
]

abbrev pub or_no_ref : Option ℕ → ℕ
or_no_ref none = no_ref
or_no_ref (some n) = n

-- The entries of the 5000 inodes are -1 or numbers below 5000.
abbrev pub Linked : Disk → Type 0
Linked d =
    (inumb i : ℕ) → inumb < 5000 → i < 10 → (child d inumb i ≡ no_ref) ⊎ (child d inumb i < 5000)

-- Enough rounds for the bytes of 5000 inodes.
abbrev pub inode_rounds : ℕ
inode_rounds = 640000

pub first_named-here :
    (d : Disk) (token : List ℕ) (c : ℕ) (cs : List ℕ)
    → is_named d token c ≡ true
    → first_named d token (c ∷ cs) ≡ some c
first_named-here d token c cs h = if_true _ _ _ h

pub first_named-on :
    (d : Disk) (token : List ℕ) (c : ℕ) (cs : List ℕ)
    → is_named d token c ≡ false
    → first_named d token (c ∷ cs) ≡ first_named d token cs
first_named-on d token c cs h = if_false _ _ _ h

pub children_from-end :
    (d : Disk) (inumb k i : ℕ)
    → (child d inumb i == no_ref) ≡ true
    → children_from d inumb (suc k) i ≡ []
children_from-end d inumb k i e = if_true _ _ _ e

pub children_from-more :
    (d : Disk) (inumb k i : ℕ)
    → (child d inumb i == no_ref) ≡ false
    → children_from d inumb (suc k) i ≡ child d inumb i ∷ children_from d inumb k (suc i)
children_from-more d inumb k i h = if_false _ _ _ h

pub is_small :
    (d : Disk)
    → Linked d
    → (inumb i : ℕ) → inumb < 5000
    → i < 10
    → (child d inumb i == no_ref) ≡ false
    → child d inumb i < 5000
is_small d linked inumb i small range h = elim (linked inumb i small range) [
  | inl e ↦ ground (arith, e, h)
  | inr less ↦ less
]

-- Either no child has the name, or the first that has it is an inode.
pub first_named-cases :
    (d : Disk)
    → Linked d
    → (token : List ℕ) (inumb k i : ℕ) → inumb < 5000
    → i + k ≤ 10
    → (first_named d token (children_from d inumb k i) ≡ none)
      ⊎ ((n : ℕ) × (first_named d token (children_from d inumb k i) ≡ some n) × (n < 5000))
first_named-cases d linked token inumb zero i small range = inl refl
first_named-cases d linked token inumb (suc k) i small range =
    elim (Bool-cases (child d inumb i == no_ref)) [
      | inl e ↦ inl (ap (first_named d token) (children_from-end d inumb k i e))
      | inr h ↦
          rw (children_from-more d inumb k i h)
            (elim (Bool-cases (is_named d token (child d inumb i))) [
              | inl yes_named ↦ inr (
                child d inumb i,
                first_named-here d token (child d inumb i) _ yes_named,
                is_small d linked inumb i small (omega arith) h,
              )
              | inr not_named ↦
                  rw
                    (first_named-on d token (child d inumb i) (children_from d inumb k (suc i))
                      not_named)
                    (first_named-cases d linked token inumb k (suc i) small (omega arith))
            ])
    ]

-- A path leads nowhere, or to one of the 5000 inodes.
pub resolve-cases :
    (d : Disk)
    → Linked d
    → (ts : List (List ℕ)) (inumb : ℕ) → inumb < 5000
    → (resolve d ts inumb ≡ none) ⊎ ((n : ℕ) × (resolve d ts inumb ≡ some n) × (n < 5000))
resolve-cases d linked [] inumb small = inr (inumb, refl, small)
resolve-cases d linked (token ∷ ts) inumb small =
    elim (first_named-cases d linked token inumb 10 0 small (omega arith)) [
      | inl e ↦ inl (rw (e, resolve) refl)
      | inr (n, e, less) ↦ rw (e, resolve) (resolve-cases d linked ts n less)
    ]

pub resolve-small :
    (d : Disk) → Linked d → (ts : List (List ℕ)) (n : ℕ) → resolve d ts 0 ≡ some n → n < 5000
resolve-small d linked ts n e = elim (resolve-cases d linked ts 0 (omega arith)) [
  | inl nowhere ↦ ground (arith, e, nowhere)
  | inr (m, leads, less) ↦ ground (arith, e, leads, less)
]
