-- ===== src/Threads/Tally/First.antt =====
-- The first two loops of the tally of createRunningQueue: how many nodes each picks.
use simple_os_dev_projs.Base.{
  ℕ, zero, suc, ◌+◌, ◌*◌, ◌<◌, ◌≡◌, ◌≢◌, refl, List, [], ◌∷◌, arith, ok, Ends, ends, Ends-weaken,
  length, some, min,
}
use simple_os_dev_projs.Threads.State.{Ptr, null, Node, Cells}
use simple_os_dev_projs.Threads.Chain.{Chain, next_of-some}
use simple_os_dev_projs.Threads.Tally.{Walk, walk, first_two, first_ones}

-- A walk that picked exactly `k` of `n` nodes.
pub record Took (q : ℕ) (c : Cells) (w : Walk) (n k : ℕ) (w' : Walk) : Type 0 where
  pub rest : List Ptr
  pub chain : Chain c null w'.temp rest
  pub total : k + length rest ≡ n
  pub picked : w'.picked ≡ w.picked + k
  pub time : w'.count ≡ w.count + q * k

module _ (c : Cells) where
  first_two-null : (w : Walk) → w.temp ≡ null → first_two c w ≡ ok w
  unfolding first_two
  first_two-null w e = ground arith

  first_two-step :
      (w : Walk) (n : Node)
      → w.temp ≢ null
      → c w.temp ≡ some n
      → first_two c w ≡ ok (walk n.next (w.count + 100) (w.picked + 1))
  unfolding first_two
  first_two-step w n ne at = ground (arith, next_of-some c w.temp ne at)

  pub first_two-Took :
      (w : Walk) (xs : List Ptr)
      → Chain c null w.temp xs
      → Ends (Took 100 c w (length xs) (min 1 (length xs))) (first_two c w)
  first_two-Took w [] h = rw (first_two-null w h) (
      ends (record {
        rest = [];
        chain = h;
        total = omega arith;
        picked = omega arith;
        time = omega arith;
      }))
  first_two-Took w (x ∷ xs) (n, p, ne, at, rest) = rw (first_two-step w n (rw p ne) (rw p at)) (
      ends (record {
        rest = xs;
        chain = rest;
        total = omega arith;
        picked = omega arith;
        time = omega arith;
      }))

  first_ones-null : (f : ℕ) (w : Walk) → w.temp ≡ null → first_ones (suc f) c w ≡ ok w
  unfolding first_ones
  first_ones-null f w e = ground arith

  first_ones-first :
      (f : ℕ) (w : Walk) (n : Node)
      → w.temp ≢ null
      → c w.temp ≡ some n
      → w.picked ≡ 0
      → first_ones (suc f) c w ≡ first_ones f c (walk n.next (w.count + 50) 1)
  unfolding first_ones
  first_ones-first f w n ne at z = ground (arith, next_of-some c w.temp ne at)

  first_ones-second :
      (f : ℕ) (w : Walk) (n : Node)
      → w.temp ≢ null
      → c w.temp ≡ some n
      → w.picked ≡ 1
      → first_ones (suc f) c w ≡ ok (walk n.next (w.count + 50) 2)
  unfolding first_ones
  first_ones-second f w n ne at z = ground (arith, next_of-some c w.temp ne at)

  -- The second round, when one node has been picked.
  first_ones-last :
      (f : ℕ) (p : Ptr) (t : ℕ) (xs : List Ptr)
      → Chain c null p xs
      → length xs < f
      → Ends (Took 50 c (walk p t 1) (length xs) (min 1 (length xs))) (first_ones f c (walk p t 1))
  first_ones-last zero p t xs h less = absurd (omega arith)
  first_ones-last (suc f) p t [] h less = rw (first_ones-null f (walk p t 1) h) (
      ends (record {
        rest = [];
        chain = h;
        total = omega arith;
        picked = omega arith;
        time = omega arith;
      }))
  first_ones-last (suc f) p t (x ∷ xs) (n, e, ne, at, rest) less =
      rw (first_ones-second f (walk p t 1) n (rw e ne) (rw e at) refl) (
        ends (record {
          rest = xs;
          chain = rest;
          total = omega arith;
          picked = omega arith;
          time = omega arith;
        }))

  pub first_ones-Took :
      (f : ℕ) (p : Ptr) (t : ℕ) (xs : List Ptr)
      → Chain c null p xs
      → length xs < f
      → Ends (Took 50 c (walk p t 0) (length xs) (min 2 (length xs))) (first_ones f c (walk p t 0))
  first_ones-Took zero p t xs h less = absurd (omega arith)
  first_ones-Took (suc f) p t [] h less = rw (first_ones-null f (walk p t 0) h) (
      ends (record {
        rest = [];
        chain = h;
        total = omega arith;
        picked = omega arith;
        time = omega arith;
      }))
  first_ones-Took (suc f) p t (x ∷ xs) (n, e, ne, at, rest) less =
      rw (first_ones-first f (walk p t 0) n (rw e ne) (rw e at) refl) (
        Ends-weaken (first_ones-last f n.next (t + 50) xs rest (omega arith)) λ w' d. record {
          rest = d.rest;
          chain = d.chain;
          total = omega (arith, d.total);
          picked = omega (arith, d.picked);
          time = omega (arith, d.time);
        })
