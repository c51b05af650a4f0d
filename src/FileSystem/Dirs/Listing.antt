-- ===== src/FileSystem/Dirs/Listing.antt =====
-- What sfs_readdir offers to the filler.
use simple_os_dev_projs.Base.{
  ℕ, zero, suc, ◌+◌, ◌≤◌, ◌<◌, ◌≡◌, inl, inr, refl, sym, ap, ◌∙◌, Bool, false, true, Bool-cases,
  List, [], ◌∷◌, some, Run, ok, ◌>>=◌, arith, ◌==◌, ==_iff,
}
use simple_os_dev_projs.FileSystem.Disk.{Block, Disk, Device}
use simple_os_dev_projs.FileSystem.Inode.{
  at_name, at_flag, letter_o, no_ref, block_ptr, inode_offset,
}
use simple_os_dev_projs.FileSystem.Inode.Reading.{home_of}
use simple_os_dev_projs.FileSystem.Path.{tokens}
use simple_os_dev_projs.FileSystem.Path.Tree.{
  child, children_from, children, children_from-end, children_from-more, is_small, resolve,
  resolve-small, Linked, inode_rounds,
}
use simple_os_dev_projs.FileSystem.Path.Resolve.{get_block-small, lookup-found}
use simple_os_dev_projs.FileSystem.Dirs.{
  success, Filler, next_offset, fill_entries, open_if_needed, sfs_readdir,
}

-- The memory from the first byte of an inode's name on.
abbrev pub name_of : Disk → (inumb : ℕ) → ℕ → ℕ
name_of d inumb j = d (home_of inumb) (inode_offset inumb + at_name + j)

abbrev pub first_or_no_ref : List ℕ → ℕ
first_or_no_ref [] = no_ref
first_or_no_ref (c ∷ cs) = c

-- Children are offered one by one, each with the number of the next, until the filler has enough.
abbrev pub offer : {B : Type 0} → Disk → Filler B → List ℕ → B → B
offer d filler [] buf = buf
offer d filler (c ∷ cs) buf =
    let r = filler (name_of d c) (first_or_no_ref cs) buf in
    elim r.0 [ true ↦ r.1 | false ↦ offer d filler cs r.1 ]

-- The entry after the last is not looked at.
next_offset-last : (o : ℕ) (dir : Block) → next_offset o 9 dir ≡ no_ref
unfolding next_offset
next_offset-last o dir = refl

next_offset-next : (o i : ℕ) (dir : Block) → i < 9 → next_offset o i dir ≡ block_ptr o (suc i) dir
unfolding next_offset
next_offset-next o i dir less = ground arith

next_offset-first :
    (d : Disk) (inumb k i : ℕ)
    → suc (i + k) ≡ 10
    → next_offset (inode_offset inumb) i (d (home_of inumb))
      ≡ first_or_no_ref (children_from d inumb k (suc i))
next_offset-first d inumb zero i e =
    ap (λ j. next_offset (inode_offset inumb) j (d (home_of inumb))) (omega (arith, e))
    ∙ next_offset-last (inode_offset inumb) (d (home_of inumb))
next_offset-first d inumb (suc k) i e =
    next_offset-next (inode_offset inumb) i (d (home_of inumb)) (omega (arith, e))
    ∙ (elim (Bool-cases (child d inumb (suc i) == no_ref)) [
      | inl h ↦ (==_iff _ _).0 h ∙ sym (ap first_or_no_ref (children_from-end d inumb k (suc i) h))
      | inr h ↦ sym (ap first_or_no_ref (children_from-more d inumb k (suc i) h))
    ])

enough_or_on :
    {B : Type 0} (t : Bool) (x y : B) (rest : Run B)
    → rest ≡ ok y
    → (elim t [ true ↦ ok x | false ↦ rest ]) ≡ ok (elim t [ true ↦ x | false ↦ y ])
enough_or_on true x y rest e = refl
enough_or_on false x y rest e = e

module _ {B : Type 0} (g : ℕ) (dev : Device) (d : Disk) (filler : Filler B)
    (reads : (n : ℕ) → dev.read_fails n ≡ false) (linked : Linked d)
    (rounds : inode_rounds ≤ g) where
  fill_entries-end :
      (inumb k i : ℕ) (buf : B)
      → (child d inumb i == no_ref) ≡ true
      → fill_entries g dev d filler (inode_offset inumb) (d (home_of inumb)) (suc k) i buf ≡ ok buf
  unfolding fill_entries
  fill_entries-end inumb k i buf e = rw (e, fill_entries) refl

  -- What follows the offer of entry `i`, where `next` is the offset it is offered with.
  abbrev after_offer : (inumb k i next : ℕ) → B → Run B
  after_offer inumb k i next buf =
      let r = filler (name_of d (child d inumb i)) next buf in
      elim r.0 [
        | true ↦ ok r.1
        | false ↦ fill_entries g dev d filler (inode_offset inumb) (d (home_of inumb)) k (suc i) r.1
      ]

  fill_entries-more :
      (inumb k i : ℕ) (buf : B)
      → inumb < 5000
      → suc (i + k) ≡ 10
      → (child d inumb i == no_ref) ≡ false
      → fill_entries g dev d filler (inode_offset inumb) (d (home_of inumb)) (suc k) i buf
        ≡ after_offer inumb k i (next_offset (inode_offset inumb) i (d (home_of inumb))) buf
  unfolding fill_entries
  fill_entries-more inumb k i buf small e h =
      rw (h, fill_entries)
        (rw
          (
            get_block-small g dev d reads linked rounds (child d inumb i)
                (is_small d linked inumb i small (omega arith) h),
            ◌>>=◌,
          )
          refl)

  fill_entries-none :
      (inumb i : ℕ) (buf : B)
      → fill_entries g dev d filler (inode_offset inumb) (d (home_of inumb)) zero i buf ≡ ok buf
  unfolding fill_entries
  fill_entries-none inumb i buf = refl

  fill_entries-offer :
      (inumb k i : ℕ) (buf : B)
      → inumb < 5000
      → i + k ≡ 10
      → fill_entries g dev d filler (inode_offset inumb) (d (home_of inumb)) k i buf
        ≡ ok (offer d filler (children_from d inumb k i) buf)
  fill_entries-offer inumb zero i buf small e = fill_entries-none inumb i buf
  fill_entries-offer inumb (suc k) i buf small e =
      let offered = λ (cs : List ℕ). ok (offer d filler cs buf) in
      elim (Bool-cases (child d inumb i == no_ref)) [
        | inl h ↦
            fill_entries-end inumb k i buf h ∙ sym (ap offered (children_from-end d inumb k i h))
        | inr h ↦
            fill_entries-more inumb k i buf small (omega (arith, e)) h
            ∙ ap (λ next. after_offer inumb k i next buf)
                (next_offset-first d inumb k i (omega (arith, e)))
            ∙ enough_or_on _ _ _ _ (fill_entries-offer inumb k (suc i) _ small (omega (arith, e)))
            ∙ sym (ap offered (children_from-more d inumb k i h))
      ]

  readdir-found :
      (path : List ℕ) (offset : ℕ) (buf : B) (n : ℕ)
      → resolve d (tokens path) 0 ≡ some n
      → n < 5000
      → d (home_of n) (inode_offset n + at_flag) ≡ letter_o
      → sfs_readdir g dev path filler offset buf d
        ≡ ok (success, (offer d filler (children d n) buf, d))
  unfolding sfs_readdir open_if_needed
  readdir-found path offset buf n e less opened =
      rw (lookup-found g dev path d reads linked rounds n e) (
        rw (get_block-small g dev d reads linked rounds n less, ◌>>=◌)
          (rw (opened, open_if_needed) (rw (fill_entries-offer n 10 0 buf less refl, ◌>>=◌) refl)))

-- Where reads of the disk succeed, every entry of the 5000 inodes is -1 or the number of one of them,
-- the rounds suffice, and the path leads to an inode whose flag is o, sfs_readdir succeeds without a
-- change of the disk: it offers the entries before the first -1 in their order, each with its name and
-- the number of the next one, or -1 at the last, until the filler's result is not zero. The offset
-- from which it is asked to list makes no difference.
pub sfs_readdir-offer :
    {B : Type 0} (g : ℕ) (dev : Device) (path : List ℕ) (filler : Filler B) (offset : ℕ) (buf : B)
    (n : ℕ) (d : Disk)
    → ((m : ℕ) → dev.read_fails m ≡ false)
    → Linked d
    → inode_rounds ≤ g
    → resolve d (tokens path) 0 ≡ some n
    → d (home_of n) (inode_offset n + at_flag) ≡ letter_o
    → sfs_readdir g dev path filler offset buf d
      ≡ ok (success, (offer d filler (children d n) buf, d))
sfs_readdir-offer g dev path filler offset buf n d reads linked rounds e opened =
    readdir-found g dev d filler reads linked rounds path offset buf n e
      (resolve-small d linked (tokens path) n e) opened
