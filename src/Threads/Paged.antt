-- ===== src/Threads/Paged.antt =====
-- createRunningQueue of Memory_Manager/my_pthread.c, the memory manager's copy of the thread library:
-- its refill loops pass over a node whose slice does not fit. The rest is line for line that of
-- Pthreads/my_pthread.c.
pub mod Filled
pub mod Switch
pub mod Handover
pub mod Released
pub mod Leave
pub mod Start
use simple_os_dev_projs.Base.{
  ℕ, zero, suc, ◌+◌, Bool, ◌&&◌, not, Run, ok, spent, ◌>>=◌, ◌==◌, ltb, leb, if◌then◌else◌,
}
use simple_os_dev_projs.Threads.State.{null, Cells, Sched, next_of}
use simple_os_dev_projs.Threads.Tally.{
  Walk, walk, max_count, first_two, first_ones, fill_zeros, Picks,
}
use simple_os_dev_projs.Threads.Load.{load_picks}

-- What one round of a refill loop leaves, with the node's successor.
unfoldable pub pass_node : ℕ → Walk → (next : ℕ) → Walk
pass_node q w next =
    if leb (w.count + q) max_count
    then walk next (w.count + q) (w.picked + 1)
    else walk next w.count w.picked

-- The two refill loops, with 50 or 100 milliseconds a node.
unfoldable pub paged_refill : ℕ → ℕ → Cells → Walk → Run Walk
paged_refill q zero c w = spent
paged_refill q (suc f) c w =
    if not (w.temp == null) && ltb w.count max_count
    then (do t ← next_of c w.temp; paged_refill q f c (pass_node q w t))
    else ok w

-- `if (count < max)`.
unfoldable pub paged_fill_blanks : ℕ → Cells → (w0 w1 w2 : Walk) → Run Picks
paged_fill_blanks f c w0 w1 w2 =
    if ltb w0.count max_count
    then (do
      r1 ← paged_refill 50 f c (walk w1.temp w0.count w1.picked)
      r2 ← paged_refill 100 f c (walk w2.temp r1.count w2.picked)
      ok (record { p0 = w0.picked; p1 = r1.picked; p2 = r2.picked; count = r2.count }))
    else ok (record { p0 = w0.picked; p1 = w1.picked; p2 = w2.picked; count = w0.count })

-- Lines 364 to 416, each loop with `f` rounds.
unfoldable pub paged_tally : ℕ → Sched → Run Picks
paged_tally f s = do
  w2 ← first_two s.cell (walk s.queue2.head 0 0)
  w1 ← first_ones f s.cell (walk s.queue1.head w2.count 0)
  w0 ← fill_zeros f s.cell (walk s.queue0.head w1.count 0)
  paged_fill_blanks f s.cell w0 w1 w2

-- createRunningQueue.
unfoldable pub paged_create_running_queue : ℕ → Sched → Run Sched
paged_create_running_queue f s = do k ← paged_tally f s; load_picks s k
