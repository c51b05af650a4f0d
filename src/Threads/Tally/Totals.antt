-- ===== src/Threads/Tally/Totals.antt =====
-- What the tally of createRunningQueue comes to, and when it does not end.
use simple_os_dev_projs.Base.{
  ℕ, ◌+◌, ◌*◌, ◌≤◌, ◌<◌, ◌≡◌, refl, ◌⊎◌, inl, inr, List, arith, ok, spent, ◌>>=◌, Ends, ends,
  Ends-bind, dec_lt, ◌∙◌, length, min, Ends-value, ◌/◌, ◌-◌,
}
use simple_os_dev_projs.Threads.State.{Ptr, null, Cells, Sched}
use simple_os_dev_projs.Threads.Chain.{Chain}
use simple_os_dev_projs.Threads.Tally.{
  Walk, walk, max_count, first_two, first_ones, fill_zeros, refill, Picks, fill_blanks, tally,
}
use simple_os_dev_projs.Threads.Tally.Walks.{Walked, fill_zeros-Walked, refill-hangs, refill-Walked}
use simple_os_dev_projs.Threads.Tally.First.{Took, first_two-Took, first_ones-Took}

-- The lists that hang at the three priority queues, and a number of rounds that reads them all.
pub record Queued (f : ℕ) (s : Sched) (xs0 xs1 xs2 : List Ptr) : Type 0 where
  pub chain0 : Chain s.cell null s.queue0.head xs0
  pub chain1 : Chain s.cell null s.queue1.head xs1
  pub chain2 : Chain s.cell null s.queue2.head xs2
  pub rounds0 : length xs0 < f
  pub rounds1 : length xs1 < f
  pub rounds2 : length xs2 < f

-- What a tally comes to over queues of `n0`, `n1` and `n2` threads.
pub record Tallied (n0 n1 n2 : ℕ) (k : Picks) : Type 0 where
  pub have0 : k.p0 ≤ n0
  pub have1 : k.p1 ≤ n1
  pub have2 : k.p2 ≤ n2
  pub time : k.count ≡ 25 * k.p0 + 50 * k.p1 + 100 * k.p2
  pub fits : k.count ≤ max_count
  pub served1 : min 2 n1 ≤ k.p1
  pub served2 : min 1 n2 ≤ k.p2
  pub full : (k.count ≡ max_count) ⊎ ((k.p0 ≡ n0) × (k.p1 ≡ n1) × (k.p2 ≡ n2))

fill_blanks-skip :
    (f : ℕ) (c : Cells) (w0 w1 w2 : Walk)
    → max_count ≤ w0.count
    → fill_blanks f c w0 w1 w2
      ≡ ok (record { p0 = w0.picked; p1 = w1.picked; p2 = w2.picked; count = w0.count })
unfolding fill_blanks
fill_blanks-skip f c w0 w1 w2 h = ground arith

fill_blanks-go :
    (f : ℕ) (c : Cells) (w0 w1 w2 : Walk)
    → w0.count < max_count
    → fill_blanks f c w0 w1 w2 ≡ (
        refill 50 f c (walk w1.temp w0.count w1.picked) >>= λ r1.
        refill 100 f c (walk w2.temp r1.count w2.picked) >>= λ r2.
        ok (record { p0 = w0.picked; p1 = r1.picked; p2 = r2.picked; count = r2.count }))
unfolding fill_blanks
fill_blanks-go f c w0 w1 w2 h = ground arith

tally-eq :
    (f : ℕ) (s : Sched)
    → tally f s ≡ (
        first_two s.cell (walk s.queue2.head 0 0) >>= λ w2.
        first_ones f s.cell (walk s.queue1.head w2.count 0) >>= λ w1.
        fill_zeros f s.cell (walk s.queue0.head w1.count 0) >>= λ w0. fill_blanks f s.cell w0 w1 w2)
unfolding tally
tally-eq f s = refl

module _ (f : ℕ) (s : Sched) (xs0 xs1 xs2 : List Ptr) (q : Queued f s xs0 xs1 xs2) where
  abbrev n0 : ℕ
  n0 = length xs0

  abbrev n1 : ℕ
  n1 = length xs1

  abbrev n2 : ℕ
  n2 = length xs2

  abbrev start0 : Walk → Walk
  start0 w1 = walk s.queue0.head w1.count 0

  module _ (w2 w1 w0 : Walk) (t2 : Took 100 s.cell (walk s.queue2.head 0 0) n2 (min 1 n2) w2)
      (t1 : Took 50 s.cell (walk s.queue1.head w2.count 0) n1 (min 2 n1) w1)
      (d0 : Walked 25 s.cell (start0 w1) n0 w0) where
    filled : max_count ≤ w0.count → Ends (Tallied n0 n1 n2) (fill_blanks f s.cell w0 w1 w2)
    filled le = rw (fill_blanks-skip f s.cell w0 w1 w2 le) (
        ends (record {
          have0 = omega (arith, d0.total);
          have1 = omega (arith, t1.total, t1.picked);
          have2 = omega (arith, t2.total, t2.picked);
          time = omega (arith, d0.time, t1.time, t2.time, t1.picked, t2.picked);
          fits = d0.fits;
          served1 = omega (arith, t1.picked);
          served2 = omega (arith, t2.picked);
          full = inl (omega (arith, d0.fits));
        }))

    module _ (a b : ℕ) (even0 : n0 ≡ 2 * a) (even1 : (n2 ≤ 1) ⊎ (a + n1 ≡ 2 * b))
        (lt : w0.count < max_count) where
      all0 : w0.picked ≡ n0
      all0 = omega (arith, d0.full, d0.total, d0.time, t1.time, t2.time)

      count0 : w0.count ≡ 100 * min 1 n2 + 50 * min 2 n1 + 50 * a
      count0 = omega (arith, all0, d0.time, t1.time, t2.time)

      refill1 :
          Ends
            (Walked 50 s.cell (walk w1.temp w0.count w1.picked) (length t1.rest))
            (refill 50 f s.cell (walk w1.temp w0.count w1.picked))
      refill1 =
          refill-Walked s.cell 50 f (6 - (2 * min 1 n2 + min 2 n1 + a)) t1.rest
            (walk w1.temp w0.count w1.picked) t1.chain (omega (arith, t1.total, q.rounds1))
            (omega arith) (inr (omega (arith, count0))) (omega arith)

      module _ (r1 : Walk)
          (d1 : Walked 50 s.cell (walk w1.temp w0.count w1.picked) (length t1.rest) r1) where
        time1 : r1.count ≡ 100 * min 1 n2 + 50 * a + 50 * r1.picked
        time1 = omega (arith, d1.time, count0, t1.picked)

        done1 : (r1.count ≡ max_count) ⊎ (r1.picked ≡ n1)
        done1 = omega (arith, d1.full, d1.fits, d1.total, time1, t1.total, t1.picked)

        meets :
            (r1.count + 100 * length t2.rest ≤ max_count)
            ⊎ (r1.count + 100 * ((max_count - r1.count) / 100) ≡ max_count)
        meets = elim even1 [
          | inl few ↦ inl (omega (arith, d1.fits, t2.total))
          | inr e ↦ inr (elim done1 [ inl z ↦ omega arith | inr z ↦ omega (arith, d1.fits, time1) ])
        ]

        refill2 :
            Ends
              (Walked 100 s.cell (walk w2.temp r1.count w2.picked) (length t2.rest))
              (refill 100 f s.cell (walk w2.temp r1.count w2.picked))
        refill2 =
            refill-Walked s.cell 100 f ((max_count - r1.count) / 100) t2.rest
              (walk w2.temp r1.count w2.picked) t2.chain (omega (arith, t2.total, q.rounds2))
              d1.fits meets (omega arith)

        closing :
            (r2 : Walk)
            → Walked 100 s.cell (walk w2.temp r1.count w2.picked) (length t2.rest) r2
            → Tallied n0 n1 n2
                (record { p0 = w0.picked; p1 = r1.picked; p2 = r2.picked; count = r2.count })
        closing r2 d2 = record {
          have0 = omega (arith, all0);
          have1 = omega (arith, d1.total, t1.total, t1.picked);
          have2 = omega (arith, d2.total, t2.total, t2.picked);
          time = omega (arith, d2.time, time1, t2.picked, all0);
          fits = d2.fits;
          served1 = omega (arith, d1.total, d1.time, d1.full, t1.picked, t1.total, count0, time1);
          served2 = omega (arith, d2.total, d2.full, d2.time, t2.picked, t2.total);
          full = elim done1 [
            | inl z ↦ inl (omega (arith, d2.time, d2.total, d2.full, d2.fits))
            | inr z ↦ elim d2.full [
              | inl none_left ↦ inr (all0, z, omega (arith, d2.total, t2.total, t2.picked))
              | inr tight ↦ elim meets [
                | inl few ↦
                    inr (
                      all0,
                      z,
                      omega (arith, d2.time, d2.total, d2.grows, t2.total, t2.picked, few),
                    )
                | inr e ↦ inl (omega (arith, d2.fits, d2.time, d2.grows, e))
              ]
            ]
          ];
        }

      blanks : Ends (Tallied n0 n1 n2) (fill_blanks f s.cell w0 w1 w2)
      blanks =
          rw (fill_blanks-go f s.cell w0 w1 w2 lt) (
            Ends-bind refill1
              λ r1 d1. Ends-bind (refill2 r1 d1) λ r2 d2. ends (closing r1 d1 r2 d2))

  -- With an even number of threads in queue 0, and at most one thread in queue 2 or half of queue 0
  -- and queue 1 together even, the tally ends: it picks from every queue no more than is there, its
  -- slices fit into 300 milliseconds, two threads of queue 1 and one of queue 2 are served where
  -- there are so many, and either the time is filled or every thread is picked.
  pub tally-Tallied :
      (a b : ℕ) → n0 ≡ 2 * a → (n2 ≤ 1) ⊎ (a + n1 ≡ 2 * b) → Ends (Tallied n0 n1 n2) (tally f s)
  unfolding tally
  tally-Tallied a b even0 even1 =
      Ends-bind (first_two-Took s.cell (walk s.queue2.head 0 0) xs2 q.chain2) λ w2 t2.
        Ends-bind (first_ones-Took s.cell f s.queue1.head w2.count xs1 q.chain1 q.rounds1) λ w1 t1.
          Ends-bind
            (fill_zeros-Walked s.cell f (4 * min 1 n2 + 2 * min 2 n1) xs0 (start0 w1) q.chain0
              q.rounds0 (omega (arith, t1.time, t2.time)) (omega arith))
            λ w0 d0. elim (dec_lt w0.count max_count) [
              | yes lt ↦ blanks w2 w1 w0 t2 t1 d0 a b even0 even1 lt
              | no ge ↦ filled w2 w1 w0 t2 t1 d0 (omega arith)
            ]

  -- Over three lists shorter than the rounds, with an odd number of threads in queue 0 that leaves
  -- room, and six or more in queue 1, 25 milliseconds stay free, no thread of queue 1 fits, and
  -- the tally does not end however many rounds it is given.
  pub tally-hangs : (a : ℕ) → n0 ≡ 2 * a + 1 → n0 + 4 * min 1 n2 ≤ 7 → 6 ≤ n1 → tally f s ≡ spent
  tally-hangs a odd small many =
      let (w2, e2, t2) = Ends-value (first_two-Took s.cell (walk s.queue2.head 0 0) xs2 q.chain2) in
      let (w1, e1, t1) =
        Ends-value (first_ones-Took s.cell f s.queue1.head w2.count xs1 q.chain1 q.rounds1) in
      let (w0, e0, d0) = Ends-value (
        fill_zeros-Walked s.cell f (4 * min 1 n2 + 2 * min 2 n1) xs0 (start0 w1) q.chain0 q.rounds0
          (omega (arith, t1.time, t2.time)) (omega arith)) in
      let all : w0.picked ≡ n0 = omega (arith, d0.full, d0.total, d0.time, t1.time, t2.time) in
      let time : w0.count ≡ 100 * min 1 n2 + 100 + 50 * a + 25 =
        omega (arith, all, d0.time, t1.time, t2.time) in
      tally-eq f s
      ∙ rw (
        e2,
        e1,
        e0,
        fill_blanks-go f s.cell w0 w1 w2 (omega arith),
        refill-hangs s.cell 50 f ((275 - w0.count) / 50) t1.rest (walk w1.temp w0.count w1.picked)
            t1.chain (omega (arith, t1.total)) (omega arith) (omega arith),
      )
