-- ===== src/FileSystem/Path.antt =====
-- Paths in Simple_File_System/src/sfs.c: strtok on a slash, and getInodeNumbFromPath. A path is
-- the list of the bytes before its NUL.
pub mod Tree
pub mod Tokens
pub mod Resolve
use simple_os_dev_projs.Base.{
  ℕ, zero, suc, ◌+◌, Bool, true, false, ◌&&◌, List, [], ◌∷◌, Run, ok, ◌>>=◌, ◌==◌, if◌then◌else◌,
}
use simple_os_dev_projs.FileSystem.Disk.{Block, Disk, Device}
use simple_os_dev_projs.FileSystem.Inode.{
  at_name, no_ref, block_ptr, inode_offset, get_block_by_inode_numb,
}

-- The character that separates the names of a path.
abbrev pub slash : ℕ
slash = 47

-- An empty piece between two slashes is no token.
unfoldable pub add_token : List ℕ × List (List ℕ) → List (List ℕ)
add_token ([], ts) = ts
add_token (c ∷ t, ts) = (c ∷ t) ∷ ts

-- The piece up to the first slash, and the tokens after it.
unfoldable pub split : List ℕ → List ℕ × List (List ℕ)
split [] = ([], [])
split (c ∷ cs) = let r = split cs in if c == slash then ([], add_token r) else (c ∷ r.0, r.1)

-- What `strtok(path, "/")` and then `strtok(NULL, "/")` return, up to NULL.
unfoldable pub tokens : List ℕ → List (List ℕ)
tokens path = add_token (split path)

-- What the path holds afterwards: strtok has put a NUL behind the first token.
unfoldable pub cut_path : List ℕ → List ℕ
cut_path [] = []
cut_path (c ∷ cs) = let rest = cut_path cs in if c == slash then c ∷ rest else (split (c ∷ cs)).0

-- `strcmp(name, token) == 0`, where the name starts at byte `i` of a block.
unfoldable pub name_is : Block → (i : ℕ) → List ℕ → Bool
name_is b i [] = b i == 0
name_is b i (c ∷ cs) = (b i == c) && name_is b (suc i) cs

-- The loop of line 208 with `k` rounds to go from entry `i` of the directory at byte `o` of `dir`;
-- the child's number, or -1.
unfoldable pub find_child :
    ℕ → Device → Disk → (token : List ℕ) → (o : ℕ) → (dir : Block) → (k i : ℕ) → Run ℕ
find_child g dev d token o dir zero i = ok no_ref
find_child g dev d token o dir (suc k) i =
    let rest = find_child g dev d token o dir k (suc i) in
    if block_ptr o i dir == no_ref then ok no_ref else do
      temp ← get_block_by_inode_numb g dev (block_ptr o i dir) d
      (if name_is temp (inode_offset (block_ptr o i dir) + at_name) token
          then ok (block_ptr o i dir)
          else rest)

-- The loop of line 197.
unfoldable pub walk : ℕ → Device → Disk → (ts : List (List ℕ)) → (curr_inumb : ℕ) → Run ℕ
walk g dev d [] curr_inumb = ok curr_inumb
walk g dev d (token ∷ ts) curr_inumb = do
  temp1 ← get_block_by_inode_numb g dev curr_inumb d
  child ← find_child g dev d token (inode_offset curr_inumb) temp1 10 0
  (elim (child == no_ref) [ true ↦ ok no_ref | false ↦ walk g dev d ts child ])

-- getInodeNumbFromPath; -1 is `no_ref`.
unfoldable pub get_inode_numb_from_path : ℕ → Device → (path : List ℕ) → Disk → Run ℕ
get_inode_numb_from_path g dev path d = walk g dev d (tokens path) 0
