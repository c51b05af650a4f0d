-- ===== src/Threads/Paged/Start.antt =====
-- my_pthread_create of Memory_Manager/my_pthread.c: that of Pthreads/my_pthread.c, with blocks from
-- myallocate and the switch of this copy. What myallocate answers is a parameter, and the mutex of
-- the count is free.
pub mod Handed
use simple_os_dev_projs.Base.{
  ℕ, ◌+◌, ◌%◌, ◌^◌, true, false, Option, none, some, Run, ok, fault, exited, ◌>>=◌, ◌==◌,
  if◌then◌else◌, update,
}
use simple_os_dev_projs.Threads.State.{Ptr, null, Sched}
use simple_os_dev_projs.Threads.Create.{Fresh, eagain, new_node, enqueue_new}
use simple_os_dev_projs.Threads.Create.Begin.{Heads, Answers, Library, opened}
use simple_os_dev_projs.Threads.Paged.Switch.{Pages, PagedSwitch, paged_yield}
use simple_os_dev_projs.Memory.Pages.{Os}

-- What create leaves once the block is there.
pub record PagedResult : Type 0 where
  pub errno : ℕ
  pub thread : ℕ
  pub thread_count : ℕ
  pub switch : Option PagedSwitch

-- How a call returns: with EAGAIN before the block is there, or afterwards.
pub data PagedOutcome : Type 0 where
  turned_down : Library → PagedOutcome
  done : PagedResult → PagedOutcome

-- Lines 84 to 121.
unfoldable pub paged_create_finish :
    ℕ → Os → Fresh → (first_run : Ptr) → (count : ℕ) → Sched → Pages → Run PagedResult
paged_create_finish f os m first_run count s pages =
    if m.node == null
    then ok (record {
      errno = eagain;
      thread = count;
      thread_count = (count + 1) % 2 ^ 32;
      switch = none;
    })
    else do
      s1 ←
          enqueue_new (record s { cell = update s.cell m.node (some (new_node count m.old_next)) })
            m.node
      w ← paged_yield f first_run os s1 pages
      ok (record {
        errno = 0;
        thread = count;
        thread_count = (count + 1) % 2 ^ 32;
        switch = some w;
      })

-- Lines 50 to 121: the thread itself.
unfoldable pub paged_create_thread :
    ℕ → Os → Answers → Fresh → (first_run : Ptr) → Library → Pages → Run PagedOutcome
paged_create_thread f os a m first_run l pages =
    let rest = (do
      r ← paged_create_finish f os m first_run l.thread_count l.sched pages
      ok (done r)) in
    if a.context
    then (if a.stack then (if a.block then rest else fault) else ok (turned_down l))
    else ok (turned_down l)

-- The first call with the `mpq` that it was given, from line 37 on.
unfoldable pub paged_open_library :
    ℕ → Os → Answers → Fresh → (first_run : Ptr) → Library → Pages → Option Heads → Run PagedOutcome
paged_open_library f os a m first_run l pages none = ok (turned_down l)
paged_open_library f os a m first_run l pages (some h) =
    if a.count_mutex then paged_create_thread f os a m first_run (opened h l) pages else fault

-- my_pthread_create.
unfoldable pub paged_create :
    ℕ → Os → Answers → Fresh → (first_run : Ptr) → Library → Pages → Run PagedOutcome
paged_create f os a m first_run l pages =
    if l.made
    then paged_create_thread f os a m first_run l pages
    else if a.link_stack
    then paged_open_library f os a m first_run l pages a.heads
    else exited
