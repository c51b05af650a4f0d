-- ===== src/FileSystem/Inode/Refs.antt =====
-- The block pointers of an inode after they have been set.
use simple_os_dev_projs.Base.{
  ℕ, zero, suc, ◌+◌, ◌*◌, ◌≤◌, ◌<◌, ◌≡◌, ◌≢◌, inl, inr, refl, sym, ◌∙◌, arith, ℕ_discrete, dec_lt,
}
use simple_os_dev_projs.FileSystem.Disk.{Block}
use simple_os_dev_projs.FileSystem.Bytes.{store}
use simple_os_dev_projs.FileSystem.Bytes.Loads.{
  Outside, load_cong, store-Outside, load-store_apart, load-store,
}
use simple_os_dev_projs.FileSystem.Inode.{
  at_block_ptr, at_indirect, at_double, no_ref, block_ptr, set_block_ptr, no_refs, no_indirect,
}

pub set_block_ptr-Outside :
    (o i v : ℕ) (b : Block) (j : ℕ)
    → Outside j (o + at_block_ptr + 4 * i) 4
    → set_block_ptr o i v b j ≡ b j
unfolding set_block_ptr
set_block_ptr-Outside o i v b j out = store-Outside 4 (o + at_block_ptr + 4 * i) v b j out

pub block_ptr-set : (o i v : ℕ) (b : Block) → v ≤ no_ref → block_ptr o i (set_block_ptr o i v b) ≡ v
unfolding block_ptr set_block_ptr
block_ptr-set o i v b fits = (load-store 4 (o + at_block_ptr + 4 * i) v b (omega arith)).0

pub block_ptr-set_other :
    (o i v j : ℕ) (b : Block) → i ≢ j → block_ptr o j (set_block_ptr o i v b) ≡ block_ptr o j b
unfolding block_ptr set_block_ptr
block_ptr-set_other o i v j b ne = elim (dec_lt i j) [
  | yes less ↦
      load-store_apart 4 b (o + at_block_ptr + 4 * j) 4 (o + at_block_ptr + 4 * i) v
        (inr (omega arith))
  | no ge ↦
      load-store_apart 4 b (o + at_block_ptr + 4 * j) 4 (o + at_block_ptr + 4 * i) v
        (inl (omega (arith, ge, ne)))
]

pub block_ptr_cong :
    (o i : ℕ) (b c : Block)
    → ((j : ℕ) → o + at_block_ptr + 4 * i ≤ j → j < o + at_block_ptr + 4 * i + 4 → b j ≡ c j)
    → block_ptr o i b ≡ block_ptr o i c
unfolding block_ptr
block_ptr_cong o i b c same = load_cong 4 b c (o + at_block_ptr + 4 * i) same

no_refs-suc :
    (k o i : ℕ) (b : Block)
    → no_refs (suc k) o i b ≡ no_refs k o (suc i) (set_block_ptr o i no_ref b)
unfolding no_refs
no_refs-suc k o i b = refl

pub no_refs-Outside :
    (k o i : ℕ) (b : Block) (j : ℕ)
    → Outside j (o + at_block_ptr + 4 * i) (4 * k)
    → no_refs k o i b j ≡ b j
unfolding no_refs
no_refs-Outside zero o i b j out = refl
no_refs-Outside (suc k) o i b j (inl less) =
    no_refs-Outside k o (suc i) (set_block_ptr o i no_ref b) j (inl (omega arith))
    ∙ set_block_ptr-Outside o i no_ref b j (inl (omega arith))
no_refs-Outside (suc k) o i b j (inr le) =
    no_refs-Outside k o (suc i) (set_block_ptr o i no_ref b) j (inr (omega arith))
    ∙ set_block_ptr-Outside o i no_ref b j (inr (omega arith))

-- An entry before the ones that the loop sets stays.
no_refs-before :
    (k o i : ℕ) (b : Block) (j : ℕ) → j < i → block_ptr o j (no_refs k o i b) ≡ block_ptr o j b
no_refs-before k o i b j less =
    block_ptr_cong o j (no_refs k o i b) b
      (λ n le below. no_refs-Outside k o i b n (inl (omega arith)))

-- Each of the entries that the loop sets is -1.
pub no_refs-all :
    (k o i : ℕ) (b : Block) (j : ℕ) → i ≤ j → j < i + k → block_ptr o j (no_refs k o i b) ≡ no_ref
unfolding no_refs
no_refs-all zero o i b j le less = ground arith
no_refs-all (suc k) o i b j le less = elim (ℕ_discrete i j) [
  | yes e ↦ rw (sym e) (
      no_refs-before k o (suc i) (set_block_ptr o i no_ref b) i (omega arith)
      ∙ block_ptr-set o i no_ref b (omega arith))
  | no ne ↦ no_refs-all k o (suc i) (set_block_ptr o i no_ref b) j (omega (arith, ne)) (omega arith)
]

pub no_indirect-Outside :
    (o : ℕ) (b : Block) (j : ℕ) → Outside j (o + 112) 16 → no_indirect o b j ≡ b j
unfolding no_indirect
no_indirect-Outside o b j (inl less) =
    let b1 = store 8 (o + at_indirect + 8 * 1) 0 b in
    store-Outside 8 (o + at_double) 0 (store 8 (o + at_indirect + 8 * 2) 0 b1) j (inl (omega arith))
    ∙ store-Outside 8 (o + at_indirect + 8 * 2) 0 b1 j (inl (omega arith))
    ∙ store-Outside 8 (o + at_indirect + 8 * 1) 0 b j (inl (omega arith))
no_indirect-Outside o b j (inr le) =
    let b1 = store 8 (o + at_indirect + 8 * 1) 0 b in
    store-Outside 8 (o + at_double) 0 (store 8 (o + at_indirect + 8 * 2) 0 b1) j (inr (omega arith))
    ∙ store-Outside 8 (o + at_indirect + 8 * 2) 0 b1 j (inr (omega arith))
    ∙ store-Outside 8 (o + at_indirect + 8 * 1) 0 b j (inr (omega arith))
