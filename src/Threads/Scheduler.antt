-- ===== src/Threads/Scheduler.antt =====
-- scheduler, sig_handler and my_pthread_yield of Pthreads/my_pthread.c. Timers and context switches
-- are the system's: a run of the scheduler ends in a `Switch` that says which it asks for.
pub mod Slice
pub mod Requeue
pub mod Rounds
use simple_os_dev_projs.Base.{
  ℕ, ◌+◌, ◌%◌, ◌^◌, Bool, true, false, ◌&&◌, not, Option, none, some, Run, ok, exited, ◌>>=◌, ◌==◌,
  ltb, leb, if◌then◌else◌, update,
}
use simple_os_dev_projs.Threads.State.{
  Ptr, null, Status, running, ready, Node, Queue, Cells, Sched, load, set_next,
}
use simple_os_dev_projs.Threads.Load.{create_running_queue}

-- What a time slice of the priority adds to `time_ran`, in milliseconds.
unfoldable pub slice : ℕ → ℕ
slice p = if p == 2 then 100 else if p == 1 then 50 else 25

-- Lines 180 to 187, an `unsigned int` sum.
unfoldable pub charge : Node → Node
unfolding slice
charge n = record n { time_ran = (n.time_ran + slice n.priority) % 2 ^ 32 }

-- `ptr -> data -> time_ran >= 375`, the aging flag.
unfoldable pub is_aged : Node → Bool
is_aged n = leb 375 n.time_ran

-- Lines 189 to 193.
unfoldable pub age : Node → Node
unfolding is_aged
age n = if is_aged n then record n { priority = 0; time_ran = 0 } else n

-- Lines 210 to 216: a thread that ran its whole slice falls by one level.
unfoldable pub demote : Bool → Bool → Node → Node
demote whole aged n = record n {
  status = ready;
  priority = if (whole && not aged) && ltb n.priority 2 then n.priority + 1 else n.priority;
}

-- One arm of lines 219 to 247: to the end of a queue, with no successor.
pub record Pushed : Type 0 where
  pub cell : Cells
  pub queue : Queue

unfoldable pub push_back : Cells → Queue → Ptr → Run Pushed
unfolding set_next
push_back c q p = do
  c1 ← (if q.tail == null then ok c else set_next c q.tail p)
  c2 ← set_next c1 p null
  ok (record {
    cell = c2;
    queue = record { head = if q.tail == null then p else q.head; tail = p };
  })

-- The choice of the queue by priority.
unfoldable pub requeue : Sched → Ptr → ℕ → Run Sched
unfolding push_back
requeue s p priority =
    if priority == 2
    then (do r ← push_back s.cell s.queue2 p; ok (record s { cell = r.cell; queue2 = r.queue }))
    else if priority == 1
    then (do r ← push_back s.cell s.queue1 p; ok (record s { cell = r.cell; queue1 = r.queue }))
    else (do r ← push_back s.cell s.queue0 p; ok (record s { cell = r.cell; queue0 = r.queue }))

abbrev pub with_head : Sched → Ptr → Sched
with_head s p = record s { run_queue = record { head = p; tail = s.run_queue.tail } }

-- What becomes of the node that ran, `n` as it was read, after charge and aging.
unfoldable pub is_exited : Status → Bool
is_exited Status.exited = true
is_exited _ = false

-- Lines 195 to 204: the node is unlinked and freed.
unfoldable pub retire : Sched → Ptr → Node → Sched
retire s p n = record (with_head s n.next) { cell = update s.cell p none }

-- Lines 180 to 193 and 210 to 216: what the block holds when the thread goes back into a queue.
unfoldable pub after_slice : Bool → Node → Node
unfolding charge age demote
after_slice whole n = demote whole (is_aged (charge n)) (age (charge n))

-- Lines 206 to 247.
unfoldable pub put_back : Bool → Sched → Ptr → Node → Run Sched
unfolding after_slice requeue
put_back whole s p n =
    let n' = after_slice whole n in
    requeue (record (with_head s n.next) { cell = update s.cell p (some n') }) p n'.priority

unfoldable pub refill_if_empty : ℕ → Sched → Run Sched
refill_if_empty f s = if s.run_queue.head == null then create_running_queue f s else ok s

-- The context to save, if any, the one to go on with, and the timer in microseconds.
pub record Switch : Type 0 where
  pub sched : Sched
  pub save : Option Ptr
  pub resume : Ptr
  pub usec : ℕ

-- Lines 265 to 294.
unfoldable pub timer : ℕ → ℕ
timer p = if p == 0 then 25000 else if p == 1 then 50000 else 100000

-- Lines 265 to 316: `exit(1)` when no thread is left.
unfoldable pub dispatch : Option Ptr → Sched → Run Switch
unfolding timer load
dispatch save s = if s.empty_running_queue == 1 then exited else (do
  n ← load s.cell s.run_queue.head
  ok (record {
    sched = record s {
      cell = update s.cell s.run_queue.head (some (record n { status = running }));
    };
    save = save;
    resume = s.run_queue.head;
    usec = timer n.priority;
  }))

-- Lines 151 to 173: the original thread gets a node at the head of queue 0.
unfoldable pub adopt : Sched → Ptr → Sched
adopt s fresh =
    let n : Node = record {
      status = ready;
      priority = 0;
      time_ran = 0;
      thread_id = 1;
      next = s.queue0.head;
    } in
    record s {
      cell = update s.cell fresh (some n);
      queue0 = record { head = fresh; tail = s.queue0.tail };
    }

-- `fresh` is the node that `malloc` returns on the first run. `f` bounds the loops of the tally.
unfoldable pub scheduler : ℕ → Ptr → Bool → Sched → Run Switch
scheduler f fresh whole s =
    if s.run_queue.head == null
    then (do s1 ← create_running_queue f (adopt s fresh); dispatch (some fresh) s1)
    else (do
      n ← load s.cell s.run_queue.head
      if is_exited n.status
          then (do s1 ← refill_if_empty f (retire s s.run_queue.head n); dispatch none s1)
          else (do
            s1 ← put_back whole s s.run_queue.head n
            s2 ← refill_if_empty f s1
            dispatch (some s.run_queue.head) s2))

-- my_pthread_yield stops the timer and schedules; sig_handler does so after a whole slice.
unfoldable pub yield_now : ℕ → Ptr → Sched → Run Switch
yield_now f fresh s = scheduler f fresh false s

unfoldable pub sig_handler : ℕ → Ptr → Sched → Run Switch
sig_handler f fresh s = scheduler f fresh true s
