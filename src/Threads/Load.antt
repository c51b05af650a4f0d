-- ===== src/Threads/Load.antt =====
-- The second half of createRunningQueue in Pthreads/my_pthread.c: the picked nodes move from the
-- heads of the priority queues to the end of the running queue.
pub mod Relink
pub mod Moves
pub mod Create
use simple_os_dev_projs.Base.{
  ℕ, zero, suc, Bool, true, false, ◌&&◌, Run, ok, ◌>>=◌, ◌==◌, if◌then◌else◌,
}
use simple_os_dev_projs.Threads.State.{Ptr, null, Cells, Queue, Sched, next_of, set_next}
use simple_os_dev_projs.Threads.Tally.{Picks, tally}

-- The store with the running queue and one priority queue.
pub record Moving : Type 0 where
  pub cell : Cells
  pub run_queue : Queue
  pub queue : Queue

-- One round of a loop `while (p0 > 0)`.
unfoldable pub move_one : Moving → Run Moving
unfolding next_of set_next
move_one m = do
  c ←
      (if m.run_queue.head == null
        then ok m.cell
        else set_next m.cell m.run_queue.tail m.queue.head)
  h ← next_of c m.queue.head
  ok (record {
    cell = c;
    run_queue = record {
      head = if m.run_queue.head == null then m.queue.head else m.run_queue.head;
      tail = m.queue.head;
    };
    queue = record { head = h; tail = if h == null then null else m.queue.tail };
  })

-- The loop runs as often as nodes were picked.
unfoldable pub move : ℕ → Moving → Run Moving
unfolding move_one
move zero m = ok m
move (suc n) m = do m' ← move_one m; move n m'

-- Lines 401 to 454, and the flag that lines 340 to 347 set.
unfoldable pub load_picks : Sched → Picks → Run Sched
unfolding move
load_picks s k = do
  m0 ← move k.p0 (record { cell = s.cell; run_queue = s.run_queue; queue = s.queue0 })
  m1 ← move k.p1 (record { cell = m0.cell; run_queue = m0.run_queue; queue = s.queue1 })
  m2 ← move k.p2 (record { cell = m1.cell; run_queue = m1.run_queue; queue = s.queue2 })
  ok (record {
    cell = m2.cell;
    queue0 = m0.queue;
    queue1 = m1.queue;
    queue2 = m2.queue;
    run_queue = m2.run_queue;
    empty_running_queue =
        if (s.queue0.head == null) && ((s.queue1.head == null) && (s.queue2.head == null))
        then 1
        else 0;
  })

-- createRunningQueue with `f` rounds for each loop of the tally.
unfoldable pub create_running_queue : ℕ → Sched → Run Sched
unfolding tally load_picks
create_running_queue f s = do k ← tally f s; load_picks s k
