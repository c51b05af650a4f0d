-- ===== src/Threads/Paged/Filled.antt =====
-- The tally of the memory manager's copy always ends.
use simple_os_dev_projs.Base.{
  ℕ, zero, suc, ◌+◌, ◌*◌, ◌≤◌, ◌<◌, ◌≡◌, ◌≢◌, refl, ◌⊎◌, inl, inr, some, List, [], ◌∷◌, arith, min,
  ok, ◌>>=◌, Ends, ends, Ends-bind, Ends-weaken, dec_lt, dec_le, length,
}
use simple_os_dev_projs.Threads.State.{Ptr, null, Node, Cells, Sched}
use simple_os_dev_projs.Threads.Chain.{Chain, next_of-some}
use simple_os_dev_projs.Threads.Tally.{Walk, walk, max_count, Picks}
use simple_os_dev_projs.Threads.Tally.Walks.{Walked, fill_zeros-Walked}
use simple_os_dev_projs.Threads.Tally.First.{Took, first_two-Took, first_ones-Took}
use simple_os_dev_projs.Threads.Tally.Totals.{Queued}
use simple_os_dev_projs.Threads.Paged.{pass_node, paged_refill, paged_fill_blanks, paged_tally}

-- A refill from `w` over `n` nodes that cost `q` milliseconds each, ended in `w'`.
record Refilled (q : ℕ) (w : Walk) (n : ℕ) (w' : Walk) : Type 0 where
  have : w'.picked ≤ w.picked + n
  time : w'.count + q * w.picked ≡ w.count + q * w'.picked
  grows : w.picked ≤ w'.picked
  later : w.count ≤ w'.count
  fits : w'.count ≤ max_count
  full : (w'.picked ≡ w.picked + n) ⊎ (max_count < w'.count + q)

pass_node-fits :
    (q : ℕ) (w : Walk) (t : ℕ)
    → w.count + q ≤ max_count
    → pass_node q w t ≡ walk t (w.count + q) (w.picked + 1)
unfolding pass_node
pass_node-fits q w t h = ground (arith, h)

pass_node-over :
    (q : ℕ) (w : Walk) (t : ℕ) → max_count < w.count + q → pass_node q w t ≡ walk t w.count w.picked
unfolding pass_node
pass_node-over q w t h = ground (arith, h)

module _ (c : Cells) where
  paged_refill-end :
      (q f : ℕ) (w : Walk)
      → (w.temp ≡ null) ⊎ (max_count ≤ w.count)
      → paged_refill q (suc f) c w ≡ ok w
  unfolding paged_refill
  paged_refill-end q f w h = ground arith

  paged_refill-node :
      (q f : ℕ) (w : Walk) (n : Node)
      → w.temp ≢ null
      → c w.temp ≡ some n
      → w.count < max_count
      → paged_refill q (suc f) c w ≡ paged_refill q f c (pass_node q w n.next)
  unfolding paged_refill
  paged_refill-node q f w n ne at lt = ground (arith, next_of-some c w.temp ne at)

  paged_refill-Refilled :
      (q f : ℕ) (xs : List Ptr) (w : Walk)
      → Chain c null w.temp xs
      → length xs < f
      → w.count ≤ max_count
      → 0 < q
      → Ends (Refilled q w (length xs)) (paged_refill q f c w)
  paged_refill-Refilled q zero xs w h less le pos = absurd (omega arith)
  paged_refill-Refilled q (suc f) [] w h less le pos = rw (paged_refill-end q f w (inl h)) (
      ends (record {
        have = omega arith;
        time = refl;
        grows = omega arith;
        later = omega arith;
        fits = le;
        full = inl (omega arith);
      }))
  paged_refill-Refilled q (suc f) (x ∷ xs) w (n, p, ne, at, rest) less le pos =
      elim (dec_lt w.count max_count) [
        | no over ↦ rw (paged_refill-end q f w (inr (omega arith))) (
            ends (record {
              have = omega arith;
              time = refl;
              grows = omega arith;
              later = omega arith;
              fits = le;
              full = inr (omega arith);
            }))
        | yes lt ↦
            rw (paged_refill-node q f w n (rw p ne) (rw p at) lt)
              (elim (dec_le (w.count + q) max_count) [
                | yes fit ↦ rw (pass_node-fits q w n.next fit) (
                    Ends-weaken
                      (paged_refill-Refilled q f xs (walk n.next (w.count + q) (w.picked + 1)) rest
                        (omega arith) fit pos)
                      (λ w' d. record {
                        have = omega (arith, d.have);
                        time = omega (arith, d.time);
                        grows = omega (arith, d.grows);
                        later = omega (arith, d.later);
                        fits = d.fits;
                        full = elim d.full [ inl e ↦ inl (omega (arith, e)) | inr e ↦ inr e ];
                      }))
                | no big ↦ rw (pass_node-over q w n.next (omega arith)) (
                    Ends-weaken
                      (paged_refill-Refilled q f xs (walk n.next w.count w.picked) rest
                        (omega arith) le pos)
                      (λ w' d. record {
                        have = omega (arith, d.have);
                        time = d.time;
                        grows = d.grows;
                        later = d.later;
                        fits = d.fits;
                        full = inr (omega (arith, d.later));
                      }))
              ])
      ]

-- What the tally comes to over queues of `n0`, `n1` and `n2` threads: of each queue every thread is
-- picked, or one more slice of its level would not fit.
pub record Filled (n0 n1 n2 : ℕ) (k : Picks) : Type 0 where
  pub have0 : k.p0 ≤ n0
  pub have1 : k.p1 ≤ n1
  pub have2 : k.p2 ≤ n2
  pub time : k.count ≡ 25 * k.p0 + 50 * k.p1 + 100 * k.p2
  pub fits : k.count ≤ max_count
  pub served1 : min 2 n1 ≤ k.p1
  pub served2 : min 1 n2 ≤ k.p2
  pub full0 : (k.p0 ≡ n0) ⊎ (max_count < k.count + 25)
  pub full1 : (k.p1 ≡ n1) ⊎ (max_count < k.count + 50)
  pub full2 : (k.p2 ≡ n2) ⊎ (max_count < k.count + 100)

blanks-skip :
    (f : ℕ) (c : Cells) (w0 w1 w2 : Walk)
    → max_count ≤ w0.count
    → paged_fill_blanks f c w0 w1 w2
      ≡ ok (record { p0 = w0.picked; p1 = w1.picked; p2 = w2.picked; count = w0.count })
unfolding paged_fill_blanks
blanks-skip f c w0 w1 w2 h = ground arith

blanks-go :
    (f : ℕ) (c : Cells) (w0 w1 w2 : Walk)
    → w0.count < max_count
    → paged_fill_blanks f c w0 w1 w2 ≡ (
        paged_refill 50 f c (walk w1.temp w0.count w1.picked) >>= λ r1.
        paged_refill 100 f c (walk w2.temp r1.count w2.picked) >>= λ r2.
        ok (record { p0 = w0.picked; p1 = r1.picked; p2 = r2.picked; count = r2.count }))
unfolding paged_fill_blanks
blanks-go f c w0 w1 w2 h = ground arith

module _ (f : ℕ) (s : Sched) (xs0 xs1 xs2 : List Ptr) (q : Queued f s xs0 xs1 xs2) where
  module _ (w2 w1 w0 : Walk)
      (t2 : Took 100 s.cell (walk s.queue2.head 0 0) (length xs2) (min 1 (length xs2)) w2)
      (t1 : Took 50 s.cell (walk s.queue1.head w2.count 0) (length xs1) (min 2 (length xs1)) w1)
      (d0 : Walked 25 s.cell (walk s.queue0.head w1.count 0) (length xs0) w0) where
    skipped :
        max_count ≤ w0.count
        → Filled
            (length xs0)
            (length xs1)
            (length xs2)
            (record { p0 = w0.picked; p1 = w1.picked; p2 = w2.picked; count = w0.count })
    skipped le = record {
      have0 = omega (arith, d0.total);
      have1 = omega (arith, t1.picked);
      have2 = omega (arith, t2.picked);
      time = omega (arith, d0.time, t1.time, t2.time, t1.picked, t2.picked);
      fits = d0.fits;
      served1 = omega (arith, t1.picked);
      served2 = omega (arith, t2.picked);
      full0 = inr (omega arith);
      full1 = inr (omega arith);
      full2 = inr (omega arith);
    }

    refilled :
        (r1 r2 : Walk)
        → Refilled 50 (walk w1.temp w0.count w1.picked) (length t1.rest) r1
        → Refilled 100 (walk w2.temp r1.count w2.picked) (length t2.rest) r2
        → Filled
            (length xs0)
            (length xs1)
            (length xs2)
            (record { p0 = w0.picked; p1 = r1.picked; p2 = r2.picked; count = r2.count })
    refilled r1 r2 d1 d2 = record {
      have0 = omega (arith, d0.total);
      have1 = omega (arith, d1.have, t1.total);
      have2 = omega (arith, d2.have, t2.total);
      time = omega (arith, d0.time, t1.time, t2.time, t1.picked, t2.picked, d1.time, d2.time);
      fits = d2.fits;
      served1 = omega (arith, d1.grows, t1.picked);
      served2 = omega (arith, d2.grows, t2.picked);
      full0 = elim d0.full [
        | inl e ↦ inl (omega (arith, d0.total, e))
        | inr e ↦ inr (omega (arith, d1.later, d2.later, e))
      ];
      full1 = elim d1.full [
        | inl e ↦ inl (omega (arith, t1.total, e))
        | inr e ↦ inr (omega (arith, d2.later, e))
      ];
      full2 = elim d2.full [ inl e ↦ inl (omega (arith, t2.total, e)) | inr e ↦ inr e ];
    }

    blanks-Filled :
        Ends (Filled (length xs0) (length xs1) (length xs2)) (paged_fill_blanks f s.cell w0 w1 w2)
    blanks-Filled = elim (dec_lt w0.count max_count) [
      | no ge ↦ rw (blanks-skip f s.cell w0 w1 w2 (omega arith)) (ends (skipped (omega arith)))
      | yes lt ↦ rw (blanks-go f s.cell w0 w1 w2 lt) (
          Ends-bind
            (paged_refill-Refilled s.cell 50 f t1.rest (walk w1.temp w0.count w1.picked) t1.chain
              (omega (arith, t1.total, q.rounds1)) d0.fits (omega arith))
            λ r1 d1.
              Ends-bind
                (paged_refill-Refilled s.cell 100 f t2.rest (walk w2.temp r1.count w2.picked)
                  t2.chain (omega (arith, t2.total, q.rounds2)) d1.fits (omega arith))
                λ r2 d2. ends (refilled r1 r2 d1 d2))
    ]

  -- Over any three queues the tally of the memory manager's copy ends, with one round more than the
  -- longest queue has threads: the slices fit into 300 milliseconds, two threads of queue 1 and one
  -- of queue 2 are served where there are so many, and of each queue every thread is picked or one
  -- more slice of its level would not fit.
  pub paged_tally-Filled : Ends (Filled (length xs0) (length xs1) (length xs2)) (paged_tally f s)
  unfolding paged_tally
  paged_tally-Filled =
      Ends-bind (first_two-Took s.cell (walk s.queue2.head 0 0) xs2 q.chain2) λ w2 t2.
        Ends-bind (first_ones-Took s.cell f s.queue1.head w2.count xs1 q.chain1 q.rounds1) λ w1 t1.
          Ends-bind
            (fill_zeros-Walked s.cell f (4 * min 1 (length xs2) + 2 * min 2 (length xs1)) xs0
              (walk s.queue0.head w1.count 0) q.chain0 q.rounds0 (omega (arith, t1.time, t2.time))
              (omega arith))
            λ w0 d0. blanks-Filled w2 w1 w0 t2 t1 d0
