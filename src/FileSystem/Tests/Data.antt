-- ===== src/FileSystem/Tests/Data.antt =====
-- A small disk of inodes, for runs of the operations of sfs.c.
use simple_os_dev_projs.Base.{
  ℕ, zero, suc, ◌+◌, ◌*◌, ◌≤◌, ◌<◌, ◌≡◌, inl, inr, refl, ◌∙◌, false, List, [], ◌∷◌, arith, ltb,
  ◌==◌, if◌then◌else◌,
}
use simple_os_dev_projs.FileSystem.Disk.{Block, Disk, Device}
use simple_os_dev_projs.FileSystem.Bytes.{load}
use simple_os_dev_projs.FileSystem.Inode.{
  at_block_ptr, letter_d, letter_f, no_ref, block_ptr, inode_offset,
}
use simple_os_dev_projs.FileSystem.Inode.Reading.{home_of, inode_offset-mod}
use simple_os_dev_projs.FileSystem.Inode.Refs.{block_ptr_cong}
use simple_os_dev_projs.FileSystem.Path.Tree.{child, Linked}
use simple_os_dev_projs.FileSystem.Create.{Text}

abbrev pub steady : Device
steady = record { read_fails = λ _. false; write_fails = λ _. false }

-- The root is a directory with the one entry `c`.
abbrev pub root_block : (c flag : ℕ) → Block
root_block c flag i =
    if ltb i 68
    then (if i == 0
        then 192
        else (if i == 1
            then 1
            else (if i == 4
                then letter_d
                else (if i == 30 then flag else (if i == 64 then c else 0)))))
    else 255

-- Inode 5 is a file with the name a, and without blocks.
abbrev pub file_block : Block
file_block i =
    if i == 132 then letter_f else (if i == 133 then 97 else (if i == 134 then 0 else 255))

abbrev pub tree : (c flag : ℕ) → Disk
tree c flag n i = if n == 20 then root_block c flag i else (if n == 21 then file_block i else 255)

-- The path /a, and the name a.
abbrev pub path_a : List ℕ
path_a = 47 ∷ 97 ∷ []

abbrev pub text_a : Text
text_a = record { before = 0; chars = path_a; after = λ i. 0 }

blank : (o i : ℕ) → block_ptr o i (λ j. 255) ≡ no_ref
unfolding block_ptr load
blank o i = refl

no_ref-blank :
    (o i : ℕ) (b : Block)
    → ((j : ℕ) → o + at_block_ptr + 4 * i ≤ j → j < o + at_block_ptr + 4 * i + 4 → b j ≡ 255)
    → block_ptr o i b ≡ no_ref
no_ref-blank o i b same = block_ptr_cong o i b (λ j. 255) same ∙ blank o i

tree-blank :
    (c flag inumb i j : ℕ)
    → 0 < inumb + i
    → i < 10
    → inode_offset inumb + at_block_ptr + 4 * i ≤ j
    → j < inode_offset inumb + at_block_ptr + 4 * i + 4
    → tree c flag (home_of inumb) j ≡ 255
tree-blank c flag inumb i j other range le less = let eq = inode_offset-mod inumb in ground arith

pub tree-no_ref :
    (c flag inumb i : ℕ) → 0 < inumb + i → i < 10 → child (tree c flag) inumb i ≡ no_ref
tree-no_ref c flag inumb i other range =
    no_ref-blank (inode_offset inumb) i (tree c flag (home_of inumb))
      (λ j le less. tree-blank c flag inumb i j other range le less)

pub tree-first : (c flag : ℕ) → child (tree c flag) 0 0 ≡ c
unfolding block_ptr load inode_offset
tree-first c flag = omega arith

pub tree-Linked : (c flag : ℕ) → c < 5000 → Linked (tree c flag)
tree-Linked c flag less zero zero small range = inr (rw (tree-first c flag) less)
tree-Linked c flag less zero (suc i) small range =
    inl (tree-no_ref c flag 0 (suc i) (omega arith) range)
tree-Linked c flag less (suc n) i small range =
    inl (tree-no_ref c flag (suc n) i (omega arith) range)

pub tree-unused : (c flag n i : ℕ) → i < 10 → child (tree c flag) (suc n) i ≡ no_ref
tree-unused c flag n i range = tree-no_ref c flag (suc n) i (omega arith) range
