-- ===== src/Threads/Load/Create.antt =====
-- createRunningQueue as a whole.
use mathlib.Core.Path.{subst}
use simple_os_dev_projs.Base.{
  ℕ, ◌≡◌, refl, sym, Bool, ◌&&◌, ok, ap, Ends, ends, Ends-bind, List, [], ◌++◌, length,
  if◌then◌else◌, ◌==◌, ◌>>=◌,
}
use simple_os_dev_projs.Threads.State.{Ptr, null, Queue, Cells, Sched}
use simple_os_dev_projs.Threads.Chain.{Distinct}
use simple_os_dev_projs.Threads.Apart.{
  Apart, Apart-sym, Apart-left, Apart-right, Apart-Absent, Distinct-append_iff,
}
use simple_os_dev_projs.Threads.Tally.{Picks, tally}
use simple_os_dev_projs.Threads.Load.{Moving, move, load_picks, create_running_queue}
use simple_os_dev_projs.Threads.Load.Relink.{Running, IsQueue, IsQueue-frame}
use simple_os_dev_projs.Threads.Load.Moves.{stop_after, Moved, move-Moved}

-- Three queues of distinct nodes that share none.
pub record Separate (c : Cells) (s : Sched) (xs0 xs1 xs2 : List Ptr) : Type 0 where
  pub holds0 : IsQueue c s.queue0 xs0
  pub holds1 : IsQueue c s.queue1 xs1
  pub holds2 : IsQueue c s.queue2 xs2
  pub distinct0 : Distinct xs0
  pub distinct1 : Distinct xs1
  pub distinct2 : Distinct xs2
  pub apart01 : Apart xs0 xs1
  pub apart02 : Apart xs0 xs2
  pub apart12 : Apart xs1 xs2

-- The `next` of the last node of the running queue.
abbrev pub runs_on : (us0 us1 us2 : List Ptr) → Sched → Ptr
runs_on us0 us1 us2 s =
    stop_after us2 (stop_after us1 (stop_after us0 null s.queue0.head) s.queue1.head) s.queue2.head

abbrev pub is_empty : Sched → Bool
is_empty s = (s.queue0.head == null) && ((s.queue1.head == null) && (s.queue2.head == null))

pub record Created (s : Sched) (us0 us1 us2 vs0 vs1 vs2 : List Ptr) (s' : Sched) : Type 0 where
  pub running : Running s'.cell s'.run_queue (runs_on us0 us1 us2 s') ((us0 ++ us1) ++ us2)
  pub rest0 : IsQueue s'.cell s'.queue0 vs0
  pub rest1 : IsQueue s'.cell s'.queue1 vs1
  pub rest2 : IsQueue s'.cell s'.queue2 vs2
  pub flag : s'.empty_running_queue ≡ (if is_empty s then 1 else 0)

-- A queue survives a move of nodes that it does not hold.
Moved-frame :
    (m m' : Moving) (stop : Ptr) (ys us vs xs : List Ptr) (q : Queue)
    → Moved m stop ys us vs m'
    → Apart xs (ys ++ us)
    → IsQueue m.cell q xs
    → IsQueue m'.cell q xs
Moved-frame m m' stop ys us vs xs q d sep h =
    IsQueue-frame m.cell m'.cell q xs
      (λ a inside. d.frame a (Apart-Absent a xs (ys ++ us) sep inside)) h

abbrev moving0 : Sched → Moving
moving0 s = record { cell = s.cell; run_queue = s.run_queue; queue = s.queue0 }

abbrev moving : Moving → Queue → Moving
moving m q = record { cell = m.cell; run_queue = m.run_queue; queue = q }

load_picks-eq :
    (s : Sched) (k : Picks)
    → load_picks s k ≡ (
        move k.p0 (moving0 s) >>= λ m0. move k.p1 (moving m0 s.queue1) >>= λ m1.
        move k.p2 (moving m1 s.queue2) >>= λ m2. ok (record {
          cell = m2.cell;
          queue0 = m0.queue;
          queue1 = m1.queue;
          queue2 = m2.queue;
          run_queue = m2.run_queue;
          empty_running_queue = if is_empty s then 1 else 0;
        }))
unfolding load_picks
load_picks-eq s k = refl

create_running_queue-eq :
    (f : ℕ) (s : Sched) (k : Picks) → tally f s ≡ ok k → create_running_queue f s ≡ load_picks s k
unfolding create_running_queue
create_running_queue-eq f s k t = ap (λ r. r >>= load_picks s) t

module _ (s : Sched) (us0 us1 us2 vs0 vs1 vs2 : List Ptr)
    (sep : Separate s.cell s (us0 ++ vs0) (us1 ++ vs1) (us2 ++ vs2)) where
  open sep use {holds0, holds1, holds2, distinct0, distinct1, distinct2, apart01, apart02, apart12}

  picked_parts :
      Apart us0 (us1 ++ vs1)
      × Apart vs0 (us1 ++ vs1)
      × Apart us0 (us2 ++ vs2)
      × Apart vs0 (us2 ++ vs2)
      × Apart us1 (us2 ++ vs2)
      × Apart vs1 (us2 ++ vs2)
  picked_parts =
      let r = (Apart-left us0 vs0 (us1 ++ vs1)).0 apart01 in
      let t = (Apart-left us0 vs0 (us2 ++ vs2)).0 apart02 in
      let u = (Apart-left us1 vs1 (us2 ++ vs2)).0 apart12 in (r.0, r.1, t.0, t.1, u.0, u.1)

  halves0 : Distinct us0 × Distinct vs0 × Apart us0 vs0
  halves0 = (Distinct-append_iff us0 vs0).0 distinct0

  halves1 : Distinct us1 × Distinct vs1 × Apart us1 vs1
  halves1 = (Distinct-append_iff us1 vs1).0 distinct1

  halves2 : Distinct us2 × Distinct vs2 × Apart us2 vs2
  halves2 = (Distinct-append_iff us2 vs2).0 distinct2

  Apart-us : Apart us0 us1
  Apart-us = ((Apart-right us0 us1 vs1).0 picked_parts.0).0

  apart2 : Apart (us2 ++ vs2) (us0 ++ us1)
  apart2 =
      (Apart-right (us2 ++ vs2) us0 us1).1
        (Apart-sym us0 (us2 ++ vs2) picked_parts.2, Apart-sym us1 (us2 ++ vs2) picked_parts.4)

  Apart-vs0 : Apart vs0 (us0 ++ us1) × Apart vs0 ((us0 ++ us1) ++ us2)
  Apart-vs0 =
      let early =
        (Apart-right vs0 us0 us1).1
          (Apart-sym us0 vs0 halves0.2, ((Apart-right vs0 us1 vs1).0 picked_parts.1).0) in
      (
        early,
        (Apart-right vs0 (us0 ++ us1) us2).1
            (early, ((Apart-right vs0 us2 vs2).0 picked_parts.3).0),
      )

  Apart-vs1 : Apart vs1 ((us0 ++ us1) ++ us2)
  Apart-vs1 =
      let to0 = Apart-sym us0 vs1 ((Apart-right us0 us1 vs1).0 picked_parts.0).1 in
      (Apart-right vs1 (us0 ++ us1) us2).1 (
        (Apart-right vs1 us0 us1).1 (to0, Apart-sym us1 vs1 halves1.2),
        ((Apart-right vs1 us2 vs2).0 picked_parts.5).0,
      )

  Distinct-us1 : Distinct (us0 ++ (us1 ++ vs1))
  Distinct-us1 = (Distinct-append_iff us0 (us1 ++ vs1)).1 (halves0.0, distinct1, picked_parts.0)

  Distinct-us2 : Distinct ((us0 ++ us1) ++ (us2 ++ vs2))
  Distinct-us2 = (Distinct-append_iff (us0 ++ us1) (us2 ++ vs2)).1 (
    (Distinct-append_iff us0 us1).1 (halves0.0, halves1.0, Apart-us),
    distinct2,
    Apart-sym (us2 ++ vs2) (us0 ++ us1) apart2,
  )

  module _ (m0 : Moving) (d0 : Moved (moving0 s) null [] us0 vs0 m0) where
    abbrev stop0 : Ptr
    stop0 = stop_after us0 null m0.queue.head

    kept1 : IsQueue m0.cell s.queue1 (us1 ++ vs1)
    kept1 =
        Moved-frame (moving0 s) m0 null [] us0 vs0 (us1 ++ vs1) s.queue1 d0
          (Apart-sym us0 (us1 ++ vs1) picked_parts.0) holds1

    module _ (m1 : Moving) (d1 : Moved (moving m0 s.queue1) stop0 us0 us1 vs1 m1) where
      abbrev stop1 : Ptr
      stop1 = stop_after us1 stop0 m1.queue.head

      kept2 : IsQueue m1.cell s.queue2 (us2 ++ vs2)
      kept2 =
          Moved-frame (moving m0 s.queue1) m1 stop0 us0 us1 vs1 (us2 ++ vs2) s.queue2 d1 apart2 (
            Moved-frame (moving0 s) m0 null [] us0 vs0 (us2 ++ vs2) s.queue2 d0
              (Apart-sym us0 (us2 ++ vs2) picked_parts.2) holds2)

      module _ (m2 : Moving) (d2 : Moved (moving m1 s.queue2) stop1 (us0 ++ us1) us2 vs2 m2) where
        kept_rest0 : IsQueue m2.cell m0.queue vs0
        kept_rest0 =
            Moved-frame (moving m1 s.queue2) m2 stop1 (us0 ++ us1) us2 vs2 vs0 m0.queue d2
              Apart-vs0.1
              (Moved-frame (moving m0 s.queue1) m1 stop0 us0 us1 vs1 vs0 m0.queue d1 Apart-vs0.0
                d0.queue)

        kept_rest1 : IsQueue m2.cell m1.queue vs1
        kept_rest1 =
            Moved-frame (moving m1 s.queue2) m2 stop1 (us0 ++ us1) us2 vs2 vs1 m1.queue d2 Apart-vs1
              d1.queue

  load_picks-Created :
      (k : Picks)
      → s.run_queue.head ≡ null
      → k.p0 ≡ length us0
      → k.p1 ≡ length us1
      → k.p2 ≡ length us2
      → Ends (Created s us0 us1 us2 vs0 vs1 vs2) (load_picks s k)
  load_picks-Created k empty e0 e1 e2 =
      rw (load_picks-eq s k, e0, e1, e2)
        (Ends-bind (move-Moved us0 (moving0 s) null [] vs0 empty holds0 distinct0) λ m0 d0.
          Ends-bind
            (move-Moved us1 (moving m0 s.queue1) (stop_after us0 null m0.queue.head) us0 vs1
              d0.running (kept1 m0 d0) Distinct-us1)
            λ m1 d1.
              Ends-bind
                (move-Moved us2 (moving m1 s.queue2)
                  (stop_after us1 (stop_after us0 null m0.queue.head) m1.queue.head) (us0 ++ us1)
                  vs2 d1.running (kept2 m0 d0 m1 d1) Distinct-us2)
                λ m2 d2. ends (record {
                  running = d2.running;
                  rest0 = kept_rest0 m0 d0 m1 d1 m2 d2;
                  rest1 = kept_rest1 m0 d0 m1 d1 m2 d2;
                  rest2 = d2.queue;
                  flag = refl;
                }))

module _ (f : ℕ) (s : Sched) (k : Picks) (us0 us1 us2 vs0 vs1 vs2 : List Ptr) where
  -- From three queues of distinct nodes that share none and an empty running queue, where the
  -- tally ends with as many picks as each queue has nodes to give, createRunningQueue ends. The
  -- running queue gets the picked nodes, those of priority 0 first and each queue's in order, and
  -- each queue keeps the rest. The last node of the running queue still points to the rest of the
  -- queue that it came from, and the flag says whether the three queues were empty.
  pub create_running_queue-Created :
      Separate s.cell s (us0 ++ vs0) (us1 ++ vs1) (us2 ++ vs2)
      → s.run_queue.head ≡ null
      → tally f s ≡ ok k
      → k.p0 ≡ length us0
      → k.p1 ≡ length us1
      → k.p2 ≡ length us2
      → Ends (Created s us0 us1 us2 vs0 vs1 vs2) (create_running_queue f s)
  create_running_queue-Created sep empty t e0 e1 e2 =
      subst (Ends (Created s us0 us1 us2 vs0 vs1 vs2)) (sym (create_running_queue-eq f s k t))
        (load_picks-Created s us0 us1 us2 vs0 vs1 vs2 sep k empty e0 e1 e2)
