-- ===== src/Base/Outcome.antt =====
-- What a run of the C code comes to. The sources leave the normal path in three ways: a dereference
-- of a pointer that points to nothing, `exit(1)`, and a loop that does not end.
use mathlib.Core.Path.{◌≡◌, refl, subst}

-- `spent` is the model's own: the rounds given to a loop did not suffice.
pub data Run {ℓ} (A : Type ℓ) : Type ℓ where
  ok : A → Run A
  fault : Run A
  exited : Run A
  spent : Run A

-- What comes next in the code is run just if the part before it ended with a value.
infixl 5 ◌>>=◌
abbrev pub ◌>>=◌ {ℓ₁ ℓ₂} : {X : Type ℓ₁} {Y : Type ℓ₂} → Run X → (X → Run Y) → Run Y
spent >>= rest = spent
exited >>= rest = exited
fault >>= rest = fault
ok x >>= rest = rest x

-- The run reaches its end with a value of which `P` holds.
pub data Ends {A : Type 0} (P : A → Type 0) : Run A → Type 0 where
  ends : {a : A} → P a → Ends P (ok a)

pub Ends-bind :
    {A B : Type 0} {P : A → Type 0} {Q : B → Type 0} {m : Run A} {k : A → Run B}
    → Ends P m
    → ((a : A) → P a → Ends Q (k a))
    → Ends Q (m >>= k)
Ends-bind (ends p) next = next _ p

pub Ends-weaken :
    {A : Type 0} {P Q : A → Type 0} {m : Run A} → Ends P m → ((a : A) → P a → Q a) → Ends Q m
Ends-weaken (ends p) weaker = ends (weaker _ p)

-- What `Ends` says, with the value written out.
pub Ends-value : {A : Type 0} {P : A → Type 0} {m : Run A} → Ends P m → (a : A) × (m ≡ ok a) × P a
Ends-value (ends {a} p) = (a, refl, p)

-- The value of the run has `P`, if there is one.
pub data Leaves {A : Type 0} (P : A → Type 0) : Run A → Type 0 where
  left : {a : A} → P a → Leaves P (ok a)
  faulty : Leaves P fault
  left_program : Leaves P exited
  out_of_rounds : Leaves P spent

pub Leaves-bind :
    {A B : Type 0} {P : A → Type 0} {Q : B → Type 0} {m : Run A} {k : A → Run B}
    → Leaves P m
    → ((a : A) → P a → Leaves Q (k a))
    → Leaves Q (m >>= k)
Leaves-bind (left p) next = next _ p
Leaves-bind faulty next = faulty
Leaves-bind left_program next = left_program
Leaves-bind out_of_rounds next = out_of_rounds

pub Leaves-same :
    {A : Type 0} {P : A → Type 0} {m : Run A} (k : A → Run A)
    → Leaves P m
    → ((a : A) → P a → k a ≡ ok a)
    → (m >>= k) ≡ m
Leaves-same k (left p) same = same _ p
Leaves-same k faulty same = refl
Leaves-same k left_program same = refl
Leaves-same k out_of_rounds same = refl

pub Leaves-weaken :
    {A : Type 0} {P Q : A → Type 0} {m : Run A} → Leaves P m → ((a : A) → P a → Q a) → Leaves Q m
Leaves-weaken (left p) weaker = left (weaker _ p)
Leaves-weaken faulty weaker = faulty
Leaves-weaken left_program weaker = left_program
Leaves-weaken out_of_rounds weaker = out_of_rounds

pub Leaves-value : {A : Type 0} (P : A → Type 0) {m : Run A} {a : A} → m ≡ ok a → Leaves P m → P a
Leaves-value P e h = go (subst (Leaves P) e h)
  where
    go : {A : Type 0} {P : A → Type 0} {a : A} → Leaves P (ok a) → P a
    go (left p) = p

-- The run reaches its end with a value of which `P` holds, or it leaves the program with exit(1), and
-- then for the reason `Q`.
pub data EndsUnless {A : Type 0} (Q : Type 0) (P : A → Type 0) : Run A → Type 0 where
  reached : {a : A} → P a → EndsUnless Q P (ok a)
  quits : Q → EndsUnless Q P exited

pub EndsUnless-bind :
    {A B : Type 0} {Q : Type 0} {P : A → Type 0} {R : B → Type 0} {m : Run A} {k : A → Run B}
    → EndsUnless Q P m
    → ((a : A) → P a → EndsUnless Q R (k a))
    → EndsUnless Q R (m >>= k)
EndsUnless-bind (reached p) next = next _ p
EndsUnless-bind (quits q) next = quits q

pub EndsUnless-weaken :
    {A : Type 0} {Q : Type 0} {P R : A → Type 0} {m : Run A}
    → EndsUnless Q P m
    → ((a : A) → P a → R a)
    → EndsUnless Q R m
EndsUnless-weaken (reached p) weaker = reached (weaker _ p)
EndsUnless-weaken (quits q) weaker = quits q

-- Without the reason the run ends.
pub EndsUnless-Ends :
    {A : Type 0} {Q : Type 0} {P : A → Type 0} {m : Run A} → EndsUnless Q P m → ¬ Q → Ends P m
EndsUnless-Ends (reached p) no_reason = ends p
EndsUnless-Ends (quits q) no_reason = absurd (no_reason q)
