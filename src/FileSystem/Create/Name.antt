-- ===== src/FileSystem/Create/Name.antt =====
-- The name that sfs_create gives a file.
use simple_os_dev_projs.Base.{
  ℕ, zero, suc, ◌+◌, ◌-◌, ◌≡◌, ◌≢◌, ◌⊎◌, inl, inr, refl, sym, ap, ◌∙◌, false, Bool-cases, List, ◌∷◌,
  ok, fault, arith, ◌==◌, ==_iff, if_true, if_false,
}
use simple_os_dev_projs.FileSystem.Disk.{Block}
use simple_os_dev_projs.FileSystem.Inode.{at_name, set_block_ptr}
use simple_os_dev_projs.FileSystem.Inode.Refs.{set_block_ptr-Outside}
use simple_os_dev_projs.FileSystem.Path.{slash, tokens, name_is}
use simple_os_dev_projs.FileSystem.Path.Tokens.{IsName, name-cons, AreNames, tokens-AreNames}
use simple_os_dev_projs.FileSystem.Create.Fill.{fill_inode-name}
use simple_os_dev_projs.FileSystem.Create.{
  Text, strlen, char_at, byte_before, copy_bytes, c_string, substring, last_slash, find_slash,
  fill_inode,
}

ok-injective : (a b : ℕ) → ok a ≡ ok b → a ≡ b
ok-injective a b e = ground (arith, e)

fault-ok : (a : ℕ) → fault ≢ ok a
fault-ok a e = ground (arith, e)

last_slash-char : (t : Text) (n i : ℕ) → last_slash t n ≡ ok i → char_at t.chars t.after i ≡ slash
unfolding last_slash
last_slash-char t zero i e = elim (Bool-cases (char_at t.chars t.after 0 == slash)) [
  | inl h ↦
      ap (char_at t.chars t.after) (sym (ok-injective 0 i (sym (if_true _ _ _ h) ∙ e)))
      ∙ (==_iff _ _).0 h
  | inr h ↦ elim (fault-ok i (sym (if_false _ _ _ h) ∙ e)) [ ]
]
last_slash-char t (suc n) i e = elim (Bool-cases (char_at t.chars t.after (suc n) == slash)) [
  | inl h ↦
      ap (char_at t.chars t.after) (sym (ok-injective (suc n) i (sym (if_true _ _ _ h) ∙ e)))
      ∙ (==_iff _ _).0 h
  | inr h ↦ last_slash-char t n i (sym (if_false _ _ _ h) ∙ e)
]

length_cases : (n : ℕ) → (n ≡ 0) ⊎ ((m : ℕ) × (n ≡ suc m))
length_cases zero = inl refl
length_cases (suc n) = inr (n, refl)

find_slash-empty : (t : Text) → strlen t.chars ≡ 0 → find_slash t ≡ fault
unfolding find_slash
find_slash-empty t z = rw (z, find_slash) refl

pub find_slash-last : (t : Text) (n : ℕ) → strlen t.chars ≡ suc n → find_slash t ≡ last_slash t n
unfolding find_slash
find_slash-last t n s = rw (s, find_slash) refl

-- The loop of sfs_create and sfs_unlink stops at a slash.
find_slash-char : (t : Text) (i : ℕ) → find_slash t ≡ ok i → char_at t.chars t.after i ≡ slash
find_slash-char t i e = elim (length_cases (strlen t.chars)) [
  | inl z ↦ elim (fault-ok i (sym (find_slash-empty t z) ∙ e)) [ ]
  | inr (n, s) ↦ last_slash-char t n i (sym (find_slash-last t n s) ∙ e)
]

c_string-slash : (cs : List ℕ) → c_string (slash ∷ cs) ≡ slash ∷ c_string cs
unfolding c_string
c_string-slash cs = refl

substring-slash :
    (t : Text) (i m : ℕ)
    → char_at t.chars t.after i ≡ slash
    → substring t (suc i) (suc m) ≡ slash ∷ c_string (copy_bytes t (suc (suc i)) m)
unfolding substring copy_bytes byte_before
substring-slash t i m e = rw e (c_string-slash (copy_bytes t (suc (suc i)) m))

name_is-first : (b : Block) (i c : ℕ) (cs : List ℕ) → b i ≢ c → name_is b i (c ∷ cs) ≡ false
unfolding name_is
name_is-first b i c cs h = ground (arith, h)

given_name :
    (t : Text) (i m : ℕ)
    → find_slash t ≡ ok i
    → strlen t.chars ≡ suc (suc m)
    → substring t (suc i) (strlen t.chars - 1) ≡ slash ∷ c_string (copy_bytes t (suc (suc i)) m)
given_name t i m e long =
    ap (substring t (suc i)) (omega (arith, long)) ∙ substring-slash t i m (find_slash-char t i e)

-- If sfs_create was given a path of two characters or more and finds a slash in it, the block that
-- it writes for the new inode holds a name that does not compare equal to any token, whatever the
-- place in the block, the mode, the number, the time and the data block: the name starts with a
-- slash, and every token of every path is not empty and holds no slash.
pub fill_inode-unfound :
    (path : Text) (i m : ℕ)
    → find_slash path ≡ ok i
    → strlen path.chars ≡ suc (suc m)
    → (o mode inumb now first : ℕ) (b : Block) (c : ℕ) (cs : List ℕ) → IsName (c ∷ cs)
    → (name_is
          (set_block_ptr o 0 first
            (fill_inode o mode (substring path (suc i) (strlen path.chars - 1)) inumb now b))
          (o + at_name)
          (c ∷ cs)
        ≡ false)
      × ((p : List ℕ) → AreNames (tokens p))
fill_inode-unfound path i m e long o mode inumb now first b c cs (name-cons other rest) = (
  name_is-first _ (o + at_name) c cs (λ same. other (
      sym same
      ∙ set_block_ptr-Outside o 0 first _ (o + at_name) (inl (omega arith))
      ∙ ap (λ name. fill_inode o mode name inumb now b (o + at_name)) (given_name path i m e long)
      ∙ fill_inode-name o mode slash _ inumb now b)),
  tokens-AreNames,
)
