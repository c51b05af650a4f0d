-- ===== src/FileSystem/Bytes/Loads.antt =====
-- What a load finds after a store.
use native.Mathlib.Nat.{pow-suc}
use simple_os_dev_projs.Base.{
  ℕ, zero, suc, ◌+◌, ◌*◌, ◌/◌, ◌%◌, ◌^◌, ◌≤◌, ◌<◌, ◌≡◌, ◌⊎◌, inl, inr, refl, ◌∙◌, arith, update,
  update_self, update_ne,
}
use simple_os_dev_projs.FileSystem.Disk.{Block}
use simple_os_dev_projs.FileSystem.Bytes.{load, store}

-- Bytes from `j` on, `w` of them, do not hold byte `i`.
abbrev pub Outside : (i j w : ℕ) → Type 0
Outside i j w = (i < j) ⊎ (j + w ≤ i)

-- A load reads no byte but its own.
pub load_cong :
    (w : ℕ) (b c : Block) (i : ℕ)
    → ((j : ℕ) → i ≤ j → j < i + w → b j ≡ c j)
    → load w b i ≡ load w c i
unfolding load
load_cong zero b c i same = refl
load_cong (suc w) b c i same =
    rw
      (
        same i (omega arith) (omega arith),
        load_cong w b c (suc i) (λ j le less. same j (omega arith) (omega arith)),
      )
      refl

-- A store changes no byte but its own.
pub store-Outside : (w i v : ℕ) (b : Block) (j : ℕ) → Outside j i w → store w i v b j ≡ b j
unfolding store
store-Outside zero i v b j out = refl
store-Outside (suc w) i v b j (inl less) =
    update_ne (store w (suc i) (v / 256) b) i (v % 256) j (omega arith)
    ∙ store-Outside w (suc i) (v / 256) b j (inl (omega arith))
store-Outside (suc w) i v b j (inr le) =
    update_ne (store w (suc i) (v / 256) b) i (v % 256) j (omega arith)
    ∙ store-Outside w (suc i) (v / 256) b j (inr (omega arith))

pub load-update :
    (w : ℕ) (b : Block) (i j v : ℕ) → Outside j i w → load w (update b j v) i ≡ load w b i
load-update w b i j v (inl out) =
    load_cong w (update b j v) b i (λ k le less. update_ne b j v k (omega arith))
load-update w b i j v (inr out) =
    load_cong w (update b j v) b i (λ k le less. update_ne b j v k (omega arith))

pub load-store_apart :
    (w : ℕ) (b : Block) (i w' j v : ℕ)
    → (i + w ≤ j) ⊎ (j + w' ≤ i)
    → load w (store w' j v b) i ≡ load w b i
load-store_apart w b i w' j v (inl le) =
    load_cong w (store w' j v b) b i (λ k l less. store-Outside w' j v b k (inl (omega arith)))
load-store_apart w b i w' j v (inr le) =
    load_cong w (store w' j v b) b i (λ k l less. store-Outside w' j v b k (inr (omega arith)))

quotient_bound : (w v : ℕ) → v < 256 ^ suc w → v / 256 < 256 ^ w
quotient_bound w v less = let eq = pow-suc 256 w in omega arith

load-suc : (w : ℕ) (b : Block) (i : ℕ) → load (suc w) b i ≡ b i + 256 * load w b (suc i)
unfolding load
load-suc w b i = refl

load-store_same : (w i v : ℕ) (b : Block) → v < 256 ^ w → load w (store w i v b) i ≡ v
unfolding store load
load-store_same zero i v b fits = omega arith
load-store_same (suc w) i v b fits =
    let rest = store w (suc i) (v / 256) b in
    rw
      (
        load-suc w (update rest i (v % 256)) i,
        load-update w rest (suc i) i (v % 256) (inl (omega arith)),
        update_self rest i (v % 256),
        load-store_same w (suc i) (v / 256) b (quotient_bound w v fits),
      )
      (omega arith)

-- An integer that fits its bytes is read back as it was written, whatever the block holds, and every
-- byte outside of those it was written to is as it was.
pub load-store :
    (w i v : ℕ) (b : Block)
    → v < 256 ^ w
    → (load w (store w i v b) i ≡ v) × ((j : ℕ) → Outside j i w → store w i v b j ≡ b j)
load-store w i v b fits = (load-store_same w i v b fits, store-Outside w i v b)
