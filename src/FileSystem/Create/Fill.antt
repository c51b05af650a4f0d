-- ===== src/FileSystem/Create/Fill.antt =====
-- The inode that sfs_create has filled in, whatever its block held.
use simple_os_dev_projs.Base.{
  ℕ, suc, ◌+◌, ◌<◌, ◌≡◌, inl, ◌∙◌, List, [], ◌∷◌, arith, update, update_self, update_ne,
}
use simple_os_dev_projs.FileSystem.Disk.{Block}
use simple_os_dev_projs.FileSystem.Bytes.{store}
use simple_os_dev_projs.FileSystem.Bytes.Loads.{store-Outside}
use simple_os_dev_projs.FileSystem.Inode.{
  at_mode, at_state, at_name, at_uid, at_links, at_flag, at_time, at_ctime, at_mtime, no_ref,
  letter_f, letter_o, block_ptr, no_refs, no_indirect,
}
use simple_os_dev_projs.FileSystem.Inode.Refs.{
  block_ptr_cong, no_refs-Outside, no_refs-all, no_indirect-Outside,
}
use simple_os_dev_projs.FileSystem.Create.{strcpy, fill_rest, fill_inode}

strcpy-before : (i : ℕ) (cs : List ℕ) (b : Block) (j : ℕ) → j < i → strcpy i cs b j ≡ b j
unfolding strcpy
strcpy-before i [] b j less = update_ne b i 0 j (omega arith)
strcpy-before i (c ∷ cs) b j less =
    strcpy-before (suc i) cs (update b i c) j (omega arith) ∙ update_ne b i c j (omega arith)

strcpy-first : (i c : ℕ) (cs : List ℕ) (b : Block) → strcpy i (c ∷ cs) b i ≡ c
unfolding strcpy
strcpy-first i c cs b = strcpy-before (suc i) cs (update b i c) i (omega arith) ∙ update_self b i c

-- The members from the flag on leave the bytes before them.
fill_rest-before : (o now : ℕ) (b : Block) (j : ℕ) → j < o + at_flag → fill_rest o now b j ≡ b j
unfolding fill_rest
fill_rest-before o now b j less =
    let b1 = update b (o + at_flag) letter_o in
    let b2 = store 8 (o + at_ctime) now b1 in
    let b3 = store 8 (o + at_time) now b2 in
    let b4 = store 8 (o + at_mtime) now b3 in
    no_indirect-Outside o (no_refs 10 o 0 b4) j (inl (omega arith))
    ∙ no_refs-Outside 10 o 0 b4 j (inl (omega arith))
    ∙ store-Outside 8 (o + at_mtime) now b3 j (inl (omega arith))
    ∙ store-Outside 8 (o + at_time) now b2 j (inl (omega arith))
    ∙ store-Outside 8 (o + at_ctime) now b1 j (inl (omega arith))
    ∙ update_ne b (o + at_flag) letter_o j (omega arith)

-- Behind the name, and so the whole name where it is one byte.
fill_inode-copied :
    (o mode : ℕ) (cs : List ℕ) (inumb now : ℕ) (b : Block) (j : ℕ)
    → j < o + at_uid
    → fill_inode o mode cs inumb now b j
      ≡ strcpy (o + at_name) cs (update (store 4 (o + at_mode) mode b) (o + at_state) letter_f) j
unfolding fill_inode
fill_inode-copied o mode cs inumb now b j less =
    let b0 = update (store 4 (o + at_mode) mode b) (o + at_state) letter_f in
    let b1 = strcpy (o + at_name) cs b0 in
    let b2 = store 4 (o + at_uid) inumb b1 in
    fill_rest-before o now (store 2 (o + at_links) 1 b2) j (omega arith)
    ∙ store-Outside 2 (o + at_links) 1 b2 j (inl (omega arith))
    ∙ store-Outside 4 (o + at_uid) inumb b1 j (inl (omega arith))

pub fill_inode-name :
    (o mode c : ℕ) (cs : List ℕ) (inumb now : ℕ) (b : Block)
    → fill_inode o mode (c ∷ cs) inumb now b (o + at_name) ≡ c
fill_inode-name o mode c cs inumb now b =
    fill_inode-copied o mode (c ∷ cs) inumb now b (o + at_name) (omega arith)
    ∙ strcpy-first (o + at_name) c cs _

pub fill_inode-state :
    (o mode : ℕ) (cs : List ℕ) (inumb now : ℕ) (b : Block)
    → fill_inode o mode cs inumb now b (o + at_state) ≡ letter_f
fill_inode-state o mode cs inumb now b =
    fill_inode-copied o mode cs inumb now b (o + at_state) (omega arith)
    ∙ strcpy-before (o + at_name) cs _ (o + at_state) (omega arith)
    ∙ update_self (store 4 (o + at_mode) mode b) (o + at_state) letter_f

fill_rest-refs :
    (o now : ℕ) (b : Block) (i : ℕ) → i < 10 → block_ptr o i (fill_rest o now b) ≡ no_ref
unfolding fill_rest
fill_rest-refs o now b i less =
    block_ptr_cong o i (no_indirect o (no_refs 10 o 0 _)) (no_refs 10 o 0 _)
      (λ j le below. no_indirect-Outside o (no_refs 10 o 0 _) j (inl (omega arith)))
    ∙ no_refs-all 10 o 0 _ i (omega arith) (omega arith)

pub fill_inode-refs :
    (o mode : ℕ) (cs : List ℕ) (inumb now : ℕ) (b : Block) (i : ℕ)
    → i < 10
    → block_ptr o i (fill_inode o mode cs inumb now b) ≡ no_ref
unfolding fill_inode
fill_inode-refs o mode cs inumb now b i less = fill_rest-refs o now _ i less
