-- ===== src/Threads/Create.antt =====
-- my_pthread_create of Pthreads/my_pthread.c from the thread's block on. Begin has
-- the whole of it.
pub mod Begin
pub mod Enqueue
use simple_os_dev_projs.Base.{
  ℕ, ◌+◌, ◌%◌, ◌^◌, Option, some, none, Run, ok, fault, ◌>>=◌, ◌==◌, if◌then◌else◌, update,
}
use simple_os_dev_projs.Threads.State.{
  Ptr, null, Status, ready, Node, Queue, Cells, Sched, set_next,
}
use simple_os_dev_projs.Threads.Scheduler.{Switch, yield_now}

-- What `malloc` returns for the list node: its address and the `next` that its memory holds.
pub record Fresh : Type 0 where
  pub node : Ptr
  pub old_next : Ptr

abbrev pub eagain : ℕ
eagain = 11

-- Lines 107 to 114.
unfoldable pub enqueue_new : Sched → Ptr → Run Sched
unfolding set_next
enqueue_new s p =
    if s.queue0.head == null then ok (record s { queue0 = record { head = p; tail = p } }) else do
      c ← set_next s.cell s.queue0.tail p
      ok (record s { cell = c; queue0 = record { head = s.queue0.head; tail = p } })

-- The new block in its node.
abbrev pub new_node : ℕ → Ptr → Node
new_node id next = record {
  status = ready;
  priority = 0;
  time_ran = 0;
  thread_id = id;
  next = next;
}

-- What create leaves: the return value with `*thread` and the new count, and the switch if it got as
-- far as the yield.
pub record Result : Type 0 where
  pub errno : ℕ
  pub thread : ℕ
  pub thread_count : ℕ
  pub switch : Option Switch

-- Lines 82 to 119, with the count's mutex held.
unfoldable pub create_finish : ℕ → Fresh → Ptr → ℕ → Sched → Run Result
create_finish f m first_run count s =
    if m.node == null
    then ok (record {
      errno = eagain;
      thread = count;
      thread_count = (count + 1) % 2 ^ 32;
      switch = none;
    })
    else do
      s1 ←
          enqueue_new (record s { cell = update s.cell m.node (some (new_node count m.old_next)) })
            m.node
      w ← yield_now f first_run s1
      ok (record {
        errno = 0;
        thread = count;
        thread_count = (count + 1) % 2 ^ 32;
        switch = some w;
      })
