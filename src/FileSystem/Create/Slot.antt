-- ===== src/FileSystem/Create/Slot.antt =====
-- The entry of the directory that sfs_create takes.
use simple_os_dev_projs.Base.{
  ℕ, zero, suc, ◌+◌, ◌≤◌, ◌<◌, ◌≡◌, ◌≢◌, inl, inr, sym, ap, ◌∙◌, false, Bool-cases, Option, none,
  some, ◌∷◌, subst, arith, ◌==◌, ==_iff, if_true, if_false, if◌then◌else◌, ℕ_discrete,
}
use simple_os_dev_projs.FileSystem.Disk.{Block, Disk}
use simple_os_dev_projs.FileSystem.Inode.{no_ref, block_ptr, set_block_ptr, inode_offset}
use simple_os_dev_projs.FileSystem.Inode.Reading.{home_of}
use simple_os_dev_projs.FileSystem.Inode.Refs.{block_ptr-set_other}
use simple_os_dev_projs.FileSystem.Path.Tree.{
  child, children, children_from, children_from-end, children_from-more,
}
use simple_os_dev_projs.FileSystem.Create.{open_child_space}

-- A free entry after which none is free, among those below `n`.
pub record LastFree (o : ℕ) (dir : Block) (n slot : ℕ) : Type 0 where
  pub in_range : slot < n
  pub free_entry : block_ptr o slot dir ≡ no_ref
  pub none_after : (j : ℕ) → slot < j → j < n → block_ptr o j dir ≢ no_ref

-- What the loop has found among the entries below `i`.
pub data Space (o : ℕ) (dir : Block) (i : ℕ) : Option ℕ → Type 0 where
  full : ((j : ℕ) → j < i → block_ptr o j dir ≢ no_ref) → Space o dir i none
  free : {slot : ℕ} → LastFree o dir i slot → Space o dir i (some slot)

ne_test : (a b : ℕ) → (a == b) ≡ false → a ≢ b
ne_test a b h = ground (arith, h)

gap_ne :
    (d : Disk) (p i gap : ℕ) → child d p gap ≡ no_ref → (child d p i == no_ref) ≡ false → i ≢ gap
gap_ne d p i gap e h same = ne_test _ _ h (ap (child d p) same ∙ e)

free_next :
    (o : ℕ) (dir : Block) (i : ℕ) → block_ptr o i dir ≡ no_ref → Space o dir (suc i) (some i)
free_next o dir i e = free (record {
  in_range = omega arith;
  free_entry = e;
  none_after = λ j above below. absurd (omega arith);
})

used_next :
    (o : ℕ) (dir : Block) (i : ℕ) (space : Option ℕ)
    → block_ptr o i dir ≢ no_ref
    → Space o dir i space
    → Space o dir (suc i) space
used_next o dir i none h (full used) = full (λ j less. elim (ℕ_discrete j i) [
  | yes e ↦ λ q. h (ap (λ k. block_ptr o k dir) (sym e) ∙ q)
  | no ne ↦ used j (omega (arith, ne))
])
used_next o dir i (some slot) h (free last) = free (record {
  in_range = (let less = last.in_range in omega arith);
  free_entry = last.free_entry;
  none_after = λ j above below. elim (ℕ_discrete j i) [
    | yes e ↦ λ q. h (ap (λ k. block_ptr o k dir) (sym e) ∙ q)
    | no ne ↦ last.none_after j above (omega (arith, ne))
  ];
})

next-Space :
    (o : ℕ) (dir : Block) (i : ℕ) (space : Option ℕ)
    → Space o dir i space
    → Space o dir (suc i) (if block_ptr o i dir == no_ref then some i else space)
next-Space o dir i space s = elim (Bool-cases (block_ptr o i dir == no_ref)) [
  | inl e ↦
      subst (Space o dir (suc i)) (sym (if_true _ _ _ e)) (free_next o dir i ((==_iff _ _).0 e))
  | inr h ↦
      subst (Space o dir (suc i)) (sym (if_false _ _ _ h))
        (used_next o dir i space (ne_test _ _ h) s)
]

open_child_space-Space :
    (o : ℕ) (dir : Block) (k i : ℕ) (space : Option ℕ)
    → Space o dir i space
    → Space o dir (i + k) (open_child_space o dir k i space)
unfolding open_child_space
open_child_space-Space o dir zero i space s = subst (λ n. Space o dir n space) (omega arith) s
open_child_space-Space o dir (suc k) i space s =
    subst (λ n. Space o dir n (open_child_space o dir (suc k) i space)) (omega arith)
      (open_child_space-Space o dir k (suc i) _ (next-Space o dir i space s))

-- Of the ten entries of a directory sfs_create takes the last that is free, and none just if none is
-- free.
pub open_child_space-last :
    (o : ℕ) (dir : Block) → Space o dir 10 (open_child_space o dir 10 0 none)
open_child_space-last o dir =
    open_child_space-Space o dir 10 0 none (full (λ j less. absurd (omega arith)))

slot_of : (o : ℕ) (dir : Block) (n slot : ℕ) → Space o dir n (some slot) → LastFree o dir n slot
slot_of o dir n slot (free last) = last

-- The entry that is taken is free, and the last that is.
pub taken_slot :
    (o : ℕ) (dir : Block) (slot : ℕ)
    → open_child_space o dir 10 0 none ≡ some slot
    → LastFree o dir 10 slot
taken_slot o dir slot e =
    slot_of o dir 10 slot (subst (Space o dir 10) e (open_child_space-last o dir))

children_from-cong :
    (d u : Disk) (p k i gap : ℕ)
    → i ≤ gap
    → gap < i + k
    → child d p gap ≡ no_ref
    → ((j : ℕ) → j ≤ gap → child u p j ≡ child d p j)
    → children_from u p k i ≡ children_from d p k i
children_from-cong d u p zero i gap le less e same = absurd (omega arith)
children_from-cong d u p (suc k) i gap le less e same = elim (Bool-cases (child d p i == no_ref)) [
  | inl h ↦
      children_from-end u p k i (ap (λ c. c == no_ref) (same i le) ∙ h)
      ∙ sym (children_from-end d p k i h)
  | inr h ↦
      children_from-more u p k i (ap (λ c. c == no_ref) (same i le) ∙ h)
      ∙ ap (λ c. c ∷ children_from u p k (suc i)) (same i le)
      ∙ ap (λ cs. child d p i ∷ cs)
          (children_from-cong d u p k (suc i) gap (omega (arith, gap_ne d p i gap e h))
            (omega arith) e same)
      ∙ sym (children_from-more d p k i h)
]

-- Where a directory has a free entry before the one that sfs_create takes, and the directory is
-- written back with the number of any inode in the entry taken, the children that are listed and
-- searched are as they were: the new file is not among the entries before the first -1.
pub open_child_space-hidden :
    (d u : Disk) (p gap slot new_inumb : ℕ)
    → open_child_space (inode_offset p) (d (home_of p)) 10 0 none ≡ some slot
    → gap < slot
    → child d p gap ≡ no_ref
    → u (home_of p) ≡ set_block_ptr (inode_offset p) slot new_inumb (d (home_of p))
    → children u p ≡ children d p
open_child_space-hidden d u p gap slot new_inumb e before is_free written =
    let less = (taken_slot (inode_offset p) (d (home_of p)) slot e).in_range in
    children_from-cong d u p 10 0 gap (omega arith) (omega arith) is_free (λ j le.
      ap (block_ptr (inode_offset p) j) written
      ∙ block_ptr-set_other (inode_offset p) slot new_inumb j (d (home_of p)) (omega arith))
