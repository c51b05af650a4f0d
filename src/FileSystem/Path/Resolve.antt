-- ===== src/FileSystem/Path/Resolve.antt =====
-- Where a path leads: getInodeNumbFromPath against the tree that the inodes on the disk are.
use simple_os_dev_projs.Base.{
  ℕ, zero, suc, ◌+◌, ◌≤◌, ◌<◌, ◌≡◌, inl, inr, refl, sym, ap, ◌∙◌, true, false, Bool-cases, none,
  some, List, [], ◌∷◌, ok, ◌>>=◌, arith, ◌==◌, if_true, if_false, if◌then◌else◌,
}
use simple_os_dev_projs.FileSystem.Disk.{Disk, Device}
use simple_os_dev_projs.FileSystem.Inode.{no_ref, inode_offset, get_block_by_inode_numb}
use simple_os_dev_projs.FileSystem.Inode.Reading.{home_of, get_block-ok}
use simple_os_dev_projs.FileSystem.Path.{find_child, walk, tokens, get_inode_numb_from_path}
use simple_os_dev_projs.FileSystem.Path.Tree.{
  child, children_from, children, is_named, first_named, resolve, or_no_ref, Linked, inode_rounds,
  first_named-here, first_named-on, children_from-end, children_from-more, is_small,
  first_named-cases,
}

pub small_test : (n : ℕ) → n < 5000 → (n == no_ref) ≡ false
small_test n less = ground arith

module _ (g : ℕ) (dev : Device) (d : Disk) (reads : (n : ℕ) → dev.read_fails n ≡ false)
    (linked : Linked d) (rounds : inode_rounds ≤ g) where
  pub get_block-small :
      (inumb : ℕ) → inumb < 5000 → get_block_by_inode_numb g dev inumb d ≡ ok (d (home_of inumb))
  get_block-small inumb small =
      get_block-ok g dev inumb d (omega arith) (omega arith) (reads (home_of inumb))

  find_child-none :
      (token : List ℕ) (inumb i : ℕ)
      → find_child g dev d token (inode_offset inumb) (d (home_of inumb)) zero i ≡ ok no_ref
  unfolding find_child
  find_child-none token inumb i = refl

  walk-nil : (inumb : ℕ) → walk g dev d [] inumb ≡ ok inumb
  unfolding walk
  walk-nil inumb = refl

  find_child-end :
      (token : List ℕ) (inumb k i : ℕ)
      → (child d inumb i == no_ref) ≡ true
      → find_child g dev d token (inode_offset inumb) (d (home_of inumb)) (suc k) i ≡ ok no_ref
  unfolding find_child
  find_child-end token inumb k i e = if_true _ _ _ e

  find_child-more :
      (token : List ℕ) (inumb k i : ℕ)
      → inumb < 5000
      → i < 10
      → (child d inumb i == no_ref) ≡ false
      → find_child g dev d token (inode_offset inumb) (d (home_of inumb)) (suc k) i ≡ (
          if is_named d token (child d inumb i)
          then ok (child d inumb i)
          else find_child g dev d token (inode_offset inumb) (d (home_of inumb)) k (suc i))
  unfolding find_child
  find_child-more token inumb k i small range h =
      if_false _ _ _ h
      ∙ rw (get_block-small (child d inumb i) (is_small d linked inumb i small range h)) refl

  find_child-first :
      (token : List ℕ) (inumb k i : ℕ)
      → inumb < 5000
      → i + k ≤ 10
      → find_child g dev d token (inode_offset inumb) (d (home_of inumb)) k i
        ≡ ok (or_no_ref (first_named d token (children_from d inumb k i)))
  find_child-first token inumb zero i small range = find_child-none token inumb i
  find_child-first token inumb (suc k) i small range =
      let found = λ (l : List ℕ). ok (or_no_ref (first_named d token l)) in
      elim (Bool-cases (child d inumb i == no_ref)) [
        | inl e ↦
            find_child-end token inumb k i e ∙ sym (ap found (children_from-end d inumb k i e))
        | inr h ↦
            find_child-more token inumb k i small (omega arith) h
            ∙ (elim (Bool-cases (is_named d token (child d inumb i))) [
              | inl named ↦
                  if_true _ _ _ named
                  ∙ sym (ap (λ r. ok (or_no_ref r)) (first_named-here d token _ _ named))
              | inr other ↦
                  if_false _ _ _ other
                  ∙ find_child-first token inumb k (suc i) small (omega arith)
                  ∙ sym (ap (λ r. ok (or_no_ref r)) (first_named-on d token _ _ other))
            ])
            ∙ sym (ap found (children_from-more d inumb k i h))
      ]

  walk-missing :
      (token : List ℕ) (ts : List (List ℕ)) (inumb : ℕ)
      → inumb < 5000
      → first_named d token (children d inumb) ≡ none
      → walk g dev d (token ∷ ts) inumb ≡ ok no_ref
  unfolding walk
  walk-missing token ts inumb small e = rw (get_block-small inumb small) (
      rw
        (
          find_child-first token inumb 10 0 small (omega arith) ∙ ap (λ r. ok (or_no_ref r)) e,
          ◌>>=◌,
        )
        refl)

  walk-found :
      (token : List ℕ) (ts : List (List ℕ)) (inumb n : ℕ)
      → inumb < 5000
      → first_named d token (children d inumb) ≡ some n
      → n < 5000
      → walk g dev d (token ∷ ts) inumb ≡ walk g dev d ts n
  unfolding walk
  walk-found token ts inumb n small e less = rw (get_block-small inumb small) (
      rw
        (
          find_child-first token inumb 10 0 small (omega arith) ∙ ap (λ r. ok (or_no_ref r)) e,
          ◌>>=◌,
        )
        (rw (small_test n less) refl))

  walk-resolve :
      (ts : List (List ℕ)) (inumb : ℕ)
      → inumb < 5000
      → walk g dev d ts inumb ≡ ok (or_no_ref (resolve d ts inumb))
  walk-resolve [] inumb small = walk-nil inumb
  walk-resolve (token ∷ ts) inumb small =
      elim (first_named-cases d linked token inumb 10 0 small (omega arith)) [
        | inl e ↦ walk-missing token ts inumb small e ∙ rw (e, resolve, or_no_ref) refl
        | inr (n, e, less) ↦
            walk-found token ts inumb n small e less
            ∙ walk-resolve ts n less
            ∙ rw (e, resolve, or_no_ref) refl
      ]

-- Where reads of the disk succeed, every entry of the 5000 inodes is -1 or the number of one of them,
-- and the rounds suffice for the bytes of 5000 inodes, getInodeNumbFromPath ends: from the root it
-- goes for each name to the first child of that name among the entries before the first -1, and it
-- returns the inode where the path ends, or -1 where some name is not found.
pub get_inode_numb_from_path-resolve :
    (g : ℕ) (dev : Device) (path : List ℕ) (d : Disk)
    → ((n : ℕ) → dev.read_fails n ≡ false)
    → Linked d
    → inode_rounds ≤ g
    → get_inode_numb_from_path g dev path d ≡ ok (or_no_ref (resolve d (tokens path) 0))
unfolding get_inode_numb_from_path
get_inode_numb_from_path-resolve g dev path d reads linked rounds =
    walk-resolve g dev d reads linked rounds (tokens path) 0 (omega arith)

module _ (g : ℕ) (dev : Device) (path : List ℕ) (d : Disk)
    (reads : (n : ℕ) → dev.read_fails n ≡ false) (linked : Linked d)
    (rounds : inode_rounds ≤ g) where
  pub lookup-missing :
      resolve d (tokens path) 0 ≡ none → get_inode_numb_from_path g dev path d ≡ ok no_ref
  lookup-missing e =
      get_inode_numb_from_path-resolve g dev path d reads linked rounds
      ∙ ap (λ r. ok (or_no_ref r)) e

  pub lookup-found :
      (n : ℕ) → resolve d (tokens path) 0 ≡ some n → get_inode_numb_from_path g dev path d ≡ ok n
  lookup-found n e =
      get_inode_numb_from_path-resolve g dev path d reads linked rounds
      ∙ ap (λ r. ok (or_no_ref r)) e
