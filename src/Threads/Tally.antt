-- ===== src/Threads/Tally.antt =====
-- The first half of createRunningQueue in Pthreads/my_pthread.c: how many nodes of each priority
-- go into the next running queue.
pub mod First
pub mod Walks
pub mod Totals
use simple_os_dev_projs.Base.{
  ℕ, zero, suc, ◌+◌, Bool, true, false, ◌&&◌, not, Run, ok, spent, ◌>>=◌, ◌==◌, ltb, leb,
  if◌then◌else◌,
}
use simple_os_dev_projs.Threads.State.{Ptr, null, Cells, Sched, next_of}

-- A walk: the list pointer, `count` in milliseconds and the number of nodes picked.
pub record Walk : Type 0 where
  pub temp : Ptr
  pub count : ℕ
  pub picked : ℕ

abbrev pub walk : Ptr → ℕ → ℕ → Walk
walk p c k = record { temp = p; count = c; picked = k }

-- `int max = 300;`
abbrev pub max_count : ℕ
max_count = 300

-- `if (p2_temp != NULL)`: one priority-2 node.
unfoldable pub first_two : Cells → Walk → Run Walk
unfolding next_of
first_two c w =
    if w.temp == null
    then ok w
    else do t ← next_of c w.temp; ok (walk t (w.count + 100) (w.picked + 1))

-- `while (p1_temp != NULL) … if (p1 == 2) break;`: two priority-1 nodes at most.
unfoldable pub first_ones : ℕ → Cells → Walk → Run Walk
unfolding next_of
first_ones zero c w = spent
first_ones (suc f) c w = if w.temp == null then ok w else do
  t ← next_of c w.temp
  if w.picked + 1 == 2
      then ok (walk t (w.count + 50) (w.picked + 1))
      else first_ones f c (walk t (w.count + 50) (w.picked + 1))

-- `while (p0_temp != NULL && count < max)`.
unfoldable pub fill_zeros : ℕ → Cells → Walk → Run Walk
unfolding next_of
fill_zeros zero c w = spent
fill_zeros (suc f) c w =
    if not (w.temp == null) && ltb w.count max_count
    then (do t ← next_of c w.temp; fill_zeros f c (walk t (w.count + 25) (w.picked + 1)))
    else ok w

-- The two refill loops, with 50 or 100 milliseconds a node. Where the node does not fit, nothing
-- changes and the loop goes round again.
unfoldable pub refill : ℕ → ℕ → Cells → Walk → Run Walk
unfolding next_of
refill q zero c w = spent
refill q (suc f) c w =
    if not (w.temp == null) && ltb w.count max_count
    then (if leb (w.count + q) max_count
        then (do t ← next_of c w.temp; refill q f c (walk t (w.count + q) (w.picked + 1)))
        else refill q f c w)
    else ok w

-- The tally of each priority.
pub record Picks : Type 0 where
  pub p0 : ℕ
  pub p1 : ℕ
  pub p2 : ℕ
  pub count : ℕ

-- `if (count < max)`: the walks go on where the first round left them.
unfoldable pub fill_blanks : ℕ → Cells → (w0 w1 w2 : Walk) → Run Picks
unfolding refill
fill_blanks f c w0 w1 w2 =
    if ltb w0.count max_count
    then (do
      r1 ← refill 50 f c (walk w1.temp w0.count w1.picked)
      r2 ← refill 100 f c (walk w2.temp r1.count w2.picked)
      ok (record { p0 = w0.picked; p1 = r1.picked; p2 = r2.picked; count = r2.count }))
    else ok (record { p0 = w0.picked; p1 = w1.picked; p2 = w2.picked; count = w0.count })

-- Lines 349 to 399, each loop with `f` rounds.
unfoldable pub tally : ℕ → Sched → Run Picks
unfolding first_two first_ones fill_zeros fill_blanks
tally f s = do
  w2 ← first_two s.cell (walk s.queue2.head 0 0)
  w1 ← first_ones f s.cell (walk s.queue1.head w2.count 0)
  w0 ← fill_zeros f s.cell (walk s.queue0.head w1.count 0)
  fill_blanks f s.cell w0 w1 w2
