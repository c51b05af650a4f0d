-- ===== src/FileSystem/Path/Tokens.antt =====
-- The tokens of a path.
use simple_os_dev_projs.Base.{
  ℕ, ◌≡◌, ◌≢◌, refl, ap, ◌∙◌, false, List, [], ◌∷◌, ◌++◌, arith, ◌==◌, if_false, ℕ_discrete,
}
use simple_os_dev_projs.FileSystem.Path.{slash, add_token, split, tokens, cut_path}

-- No character of the list is a slash.
pub data IsName : List ℕ → Type 0 where
  name-nil : IsName []
  name-cons : {c : ℕ} {cs : List ℕ} → c ≢ slash → IsName cs → IsName (c ∷ cs)

-- Names that are not empty and hold no slash.
pub data AreNames : List (List ℕ) → Type 0 where
  names-nil : AreNames []
  names-cons :
      {c : ℕ} {cs : List ℕ} {ts : List (List ℕ)}
      → IsName (c ∷ cs)
      → AreNames ts
      → AreNames ((c ∷ cs) ∷ ts)

pub split-slash : (cs : List ℕ) → split (slash ∷ cs) ≡ ([], tokens cs)
unfolding split tokens
split-slash cs = refl

pub split-other :
    (c : ℕ) (cs : List ℕ) → c ≢ slash → split (c ∷ cs) ≡ (c ∷ (split cs).0, (split cs).1)
unfolding split
split-other c cs h = ground (arith, h)

tokens-slash : (cs : List ℕ) → tokens (slash ∷ cs) ≡ tokens cs
unfolding tokens add_token split
tokens-slash cs = refl

split-append :
    (t p : List ℕ) (q : List (List ℕ)) → IsName t → split p ≡ ([], q) → split (t ++ p) ≡ (t, q)
split-append [] p q name-nil e = e
split-append (c ∷ cs) p q (name-cons h name) e =
    split-other c (cs ++ p) h ∙ ap (λ r. (c ∷ r.0, r.1)) (split-append cs p q name e)

split-name : (t : List ℕ) → IsName t → split t ≡ (t, [])
unfolding split
split-name [] name-nil = refl
split-name (c ∷ cs) (name-cons h name) =
    split-other c cs h ∙ ap (λ r. (c ∷ r.0, r.1)) (split-name cs name)

split-IsName : (p : List ℕ) → IsName (split p).0
unfolding split
split-IsName [] = name-nil
split-IsName (c ∷ cs) = elim (ℕ_discrete c slash) [
  | yes e ↦ rw e name-nil
  | no h ↦ rw (split-other c cs h) (name-cons h (split-IsName cs))
]

add_token-AreNames :
    (t : List ℕ) (ts : List (List ℕ)) → IsName t → AreNames ts → AreNames (add_token (t, ts))
unfolding add_token
add_token-AreNames [] ts name names = names
add_token-AreNames (c ∷ cs) ts name names = names-cons name names

split-AreNames : (p : List ℕ) → AreNames (split p).1
unfolding split
split-AreNames [] = names-nil
split-AreNames (c ∷ cs) = elim (ℕ_discrete c slash) [
  | yes e ↦
      rw e (add_token-AreNames (split cs).0 (split cs).1 (split-IsName cs) (split-AreNames cs))
  | no h ↦ rw (split-other c cs h) (split-AreNames cs)
]

-- No token is empty or has a slash in it.
pub tokens-AreNames : (p : List ℕ) → AreNames (tokens p)
unfolding tokens
tokens-AreNames p = add_token-AreNames (split p).0 (split p).1 (split-IsName p) (split-AreNames p)

abbrev pub first_only : List (List ℕ) → List (List ℕ)
first_only [] = []
first_only (t ∷ ts) = t ∷ []

tokens-cut_nil : tokens (cut_path []) ≡ first_only (tokens [])
unfolding tokens add_token split cut_path
tokens-cut_nil = refl

other_test : (c : ℕ) → c ≢ slash → (c == slash) ≡ false
other_test c h = ground (arith, h)

cut_path-name : (c : ℕ) (cs : List ℕ) → c ≢ slash → cut_path (c ∷ cs) ≡ c ∷ (split cs).0
unfolding cut_path
cut_path-name c cs h =
    if_false (c == slash) _ _ (other_test c h) ∙ ap (λ r. r.0) (split-other c cs h)

cut_path-slash : (cs : List ℕ) → cut_path (slash ∷ cs) ≡ slash ∷ cut_path cs
unfolding cut_path
cut_path-slash cs = refl

tokens-name : (c : ℕ) (cs : List ℕ) → IsName (c ∷ cs) → tokens (c ∷ cs) ≡ (c ∷ cs) ∷ []
unfolding tokens add_token
tokens-name c cs name = rw (split-name (c ∷ cs) name) refl

tokens-first :
    (c : ℕ) (cs : List ℕ) → c ≢ slash → tokens (c ∷ cs) ≡ (c ∷ (split cs).0) ∷ (split cs).1
unfolding tokens add_token
tokens-first c cs h = rw (split-other c cs h) refl

-- After a path has been looked up, the string that it is in holds only its first name: a second
-- lookup of the same string sees the tokens up to the first and no more.
pub tokens-cut_path : (path : List ℕ) → tokens (cut_path path) ≡ first_only (tokens path)
tokens-cut_path [] = tokens-cut_nil
tokens-cut_path (c ∷ cs) = elim (ℕ_discrete c slash) [
  | yes e ↦
      rw (e, cut_path-slash cs, tokens-slash (cut_path cs), tokens-slash cs) (tokens-cut_path cs)
  | no h ↦
      rw
        (
          cut_path-name c cs h,
          tokens-first c cs h,
          tokens-name c (split cs).0 (name-cons h (split-IsName cs)),
        )
        refl
]
