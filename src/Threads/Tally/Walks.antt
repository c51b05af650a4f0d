-- ===== src/Threads/Tally/Walks.antt =====
-- The loops of the tally over a list of known nodes.
use simple_os_dev_projs.Base.{
  ℕ, zero, suc, ◌+◌, ◌*◌, ◌≤◌, ◌<◌, ◌≡◌, ◌≢◌, refl, ◌⊎◌, inl, inr, some, List, [], ◌∷◌, arith, ok,
  spent, Ends, ends, Ends-weaken, dec_lt, ◌∙◌, length,
}
use simple_os_dev_projs.Threads.State.{Ptr, null, Node, Cells}
use simple_os_dev_projs.Threads.Chain.{Chain, next_of-some}
use simple_os_dev_projs.Threads.Tally.{Walk, walk, max_count, fill_zeros, refill}

-- A walk from `w` over `n` nodes that cost `q` milliseconds each, ended in `w'`: what is left, the
-- time added, and that more would not fit or is not there.
pub record Walked (q : ℕ) (c : Cells) (w : Walk) (n : ℕ) (w' : Walk) : Type 0 where
  pub rest : List Ptr
  pub chain : Chain c null w'.temp rest
  pub total : w'.picked + length rest ≡ w.picked + n
  pub time : w'.count + q * w.picked ≡ w.count + q * w'.picked
  pub grows : w.picked ≤ w'.picked
  pub fits : w'.count ≤ max_count
  pub full : (length rest ≡ 0) ⊎ (max_count < w'.count + q)

module _ (c : Cells) where
  Walked-end : (q : ℕ) (w : Walk) → w.temp ≡ null → w.count ≤ max_count → Walked q c w 0 w
  Walked-end q w e le = record {
    rest = [];
    chain = e;
    total = omega arith;
    time = omega arith;
    grows = omega arith;
    fits = le;
    full = inl refl;
  }

  Walked-full :
      (q : ℕ) (xs : List Ptr) (w : Walk)
      → Chain c null w.temp xs
      → w.count ≤ max_count
      → max_count < w.count + q
      → Walked q c w (length xs) w
  Walked-full q xs w h le more = record {
    rest = xs;
    chain = h;
    total = omega arith;
    time = omega arith;
    grows = omega arith;
    fits = le;
    full = inr more;
  }

  Walked-step :
      (q n t : ℕ) (w w' : Walk)
      → Walked q c (walk t (w.count + q) (w.picked + 1)) n w'
      → Walked q c w (suc n) w'
  Walked-step q n t w w' d = record {
    rest = d.rest;
    chain = d.chain;
    total = omega arith;
    time = omega arith;
    grows = omega arith;
    fits = d.fits;
    full = d.full;
  }

  fill_zeros-null : (f : ℕ) (w : Walk) → w.temp ≡ null → fill_zeros (suc f) c w ≡ ok w
  unfolding fill_zeros
  fill_zeros-null f w e = ground arith

  fill_zeros-full : (f : ℕ) (w : Walk) → max_count ≤ w.count → fill_zeros (suc f) c w ≡ ok w
  unfolding fill_zeros
  fill_zeros-full f w e = ground arith

  fill_zeros-step :
      (f : ℕ) (w : Walk) (n : Node)
      → w.temp ≢ null
      → c w.temp ≡ some n
      → w.count < max_count
      → fill_zeros (suc f) c w ≡ fill_zeros f c (walk n.next (w.count + 25) (w.picked + 1))
  unfolding fill_zeros
  fill_zeros-step f w n ne at lt = ground (arith, next_of-some c w.temp ne at)

  pub fill_zeros-Walked :
      (f m : ℕ) (xs : List Ptr) (w : Walk)
      → Chain c null w.temp xs
      → length xs < f
      → w.count ≡ 25 * m
      → m ≤ 12
      → Ends (Walked 25 c w (length xs)) (fill_zeros f c w)
  fill_zeros-Walked zero m xs w h less e le = absurd (omega arith)
  fill_zeros-Walked (suc f) m [] w h less e le =
      rw (fill_zeros-null f w h) (ends (Walked-end 25 w h (omega arith)))
  fill_zeros-Walked (suc f) m (x ∷ xs) w (n, p, ne, at, rest) less e le = elim (dec_lt m 12) [
    | yes lt ↦ rw (fill_zeros-step f w n (rw p ne) (rw p at) (omega arith)) (
        Ends-weaken
          (fill_zeros-Walked f (m + 1) xs (walk n.next (w.count + 25) (w.picked + 1)) rest
            (omega arith) (omega arith) (omega arith))
          (λ w' d. Walked-step 25 (length xs) n.next w w' d))
    | no over ↦
        rw (fill_zeros-full f w (omega arith))
          (ends (Walked-full 25 (x ∷ xs) w (n, p, ne, at, rest) (omega arith) (omega arith)))
  ]

  refill-null : (q f : ℕ) (w : Walk) → w.temp ≡ null → refill q (suc f) c w ≡ ok w
  unfolding refill
  refill-null q f w e = ground arith

  refill-full : (q f : ℕ) (w : Walk) → max_count ≤ w.count → refill q (suc f) c w ≡ ok w
  unfolding refill
  refill-full q f w e = ground arith

  refill-step :
      (q f : ℕ) (w : Walk) (n : Node)
      → w.temp ≢ null
      → c w.temp ≡ some n
      → w.count < max_count
      → w.count + q ≤ max_count
      → refill q (suc f) c w ≡ refill q f c (walk n.next (w.count + q) (w.picked + 1))
  unfolding refill
  refill-step q f w n ne at lt le = ground (arith, next_of-some c w.temp ne at)

  refill-stuck :
      (q f : ℕ) (w : Walk)
      → w.temp ≢ null
      → w.count < max_count
      → max_count < w.count + q
      → refill q (suc f) c w ≡ refill q f c w
  unfolding refill
  refill-stuck q f w ne lt more = ground arith

  -- A node that does not fit is never passed over.
  refill-spins :
      (q f : ℕ) (w : Walk)
      → w.temp ≢ null
      → w.count < max_count
      → max_count < w.count + q
      → refill q f c w ≡ spent
  unfolding refill
  refill-spins q zero w ne lt more = refl
  refill-spins q (suc f) w ne lt more =
      refill-stuck q f w ne lt more ∙ refill-spins q f w ne lt more

  -- After `j` picks the count is below the maximum, a node is left and its slice does not fit.
  pub refill-hangs :
      (q f j : ℕ) (xs : List Ptr) (w : Walk)
      → Chain c null w.temp xs
      → j < length xs
      → w.count + q * j < max_count
      → max_count < w.count + q * j + q
      → refill q f c w ≡ spent
  unfolding refill
  refill-hangs q zero j xs w h less lt more = refl
  refill-hangs q (suc f) j [] w h less lt more = absurd (omega arith)
  refill-hangs q (suc f) zero (x ∷ xs) w (n, p, ne, at, rest) less lt more =
      refill-spins q (suc f) w (rw p ne) (omega arith) (omega arith)
  refill-hangs q (suc f) (suc j) (x ∷ xs) w (n, p, ne, at, rest) less lt more =
      refill-step q f w n (rw p ne) (rw p at) (omega arith) (omega arith)
      ∙ refill-hangs q f j xs (walk n.next (w.count + q) (w.picked + 1)) rest (omega arith)
          (omega arith) (omega arith)

  -- The refill ends if all nodes fit, or if the slices meet the maximum exactly.
  pub refill-Walked :
      (q f j : ℕ) (xs : List Ptr) (w : Walk)
      → Chain c null w.temp xs
      → length xs < f
      → w.count ≤ max_count
      → (w.count + q * length xs ≤ max_count) ⊎ (w.count + q * j ≡ max_count)
      → 0 < q
      → Ends (Walked q c w (length xs)) (refill q f c w)
  refill-Walked q zero j xs w h less le goal pos = absurd (omega arith)
  refill-Walked q (suc f) j [] w h less le goal pos =
      rw (refill-null q f w h) (ends (Walked-end q w h le))
  refill-Walked q (suc f) zero (x ∷ xs) w (n, p, ne, at, rest) less le goal pos =
      elim (dec_lt w.count max_count) [
        | yes lt ↦ rw (refill-step q f w n (rw p ne) (rw p at) lt (omega arith)) (
            Ends-weaken
              (refill-Walked q f 0 xs (walk n.next (w.count + q) (w.picked + 1)) rest (omega arith)
                (omega arith) (inl (omega arith)) pos)
              (λ w' d. Walked-step q (length xs) n.next w w' d))
        | no over ↦
            rw (refill-full q f w (omega arith))
              (ends (Walked-full q (x ∷ xs) w (n, p, ne, at, rest) le (omega arith)))
      ]
  refill-Walked q (suc f) (suc j) (x ∷ xs) w (n, p, ne, at, rest) less le goal pos =
      elim (dec_lt w.count max_count) [
        | yes lt ↦ rw (refill-step q f w n (rw p ne) (rw p at) lt (omega arith)) (
            Ends-weaken
              (refill-Walked q f j xs (walk n.next (w.count + q) (w.picked + 1)) rest (omega arith)
                (omega arith) (elim goal [ inl a ↦ inl (omega arith) | inr b ↦ inr (omega arith) ])
                pos)
              (λ w' d. Walked-step q (length xs) n.next w w' d))
        | no over ↦
            rw (refill-full q f w (omega arith))
              (ends (Walked-full q (x ∷ xs) w (n, p, ne, at, rest) le (omega arith)))
      ]
