-- ===== src/Threads/Paged/Switch.antt =====
-- scheduler, my_pthread_yield and sig_handler of Memory_Manager/my_pthread.c: those of
-- Pthreads/my_pthread.c, with createRunningQueue of this copy, and between the choice of the next
-- thread and the switch to it the pages of the thread that leaves are protected.
use simple_os_dev_projs.Base.{
  ℕ, Bool, true, false, Option, none, some, Run, ok, ◌>>=◌, ◌==◌, if◌then◌else◌,
}
use simple_os_dev_projs.Threads.State.{Ptr, null, Cells, Sched, load}
use simple_os_dev_projs.Threads.Scheduler.{is_exited, retire, put_back, Switch, dispatch, adopt}
use simple_os_dev_projs.Threads.Paged.{paged_create_running_queue}
use simple_os_dev_projs.Memory.Pages.{Pager, Os}
use simple_os_dev_projs.Memory.Fault.{protect_pages}

-- What the memory manager keeps of the threads: the page table, the pages that are left, how many each
-- thread has been given, and `currThread`.
pub record Pages : Type 0 where
  pub pager : Pager
  pub pages_left : ℕ
  pub counts : ℕ → ℕ
  pub curr_thread : ℕ

pub record PagedSwitch : Type 0 where
  pub switch : Switch
  pub pages : Pages

unfoldable pub paged_refill_if_empty : ℕ → Sched → Run Sched
paged_refill_if_empty f s =
    if s.run_queue.head == null then paged_create_running_queue f s else ok s

-- The thread whose pages are protected: the one whose context is saved, or else `exitingThreadId`.
unfoldable pub leaving_thread : Cells → (save : Option Ptr) → (exiting_id : ℕ) → Run ℕ
leaving_thread c none exiting_id = ok exiting_id
leaving_thread c (some p) exiting_id = do n ← load c p; ok n.thread_id

-- The second argument of protectPages.
unfoldable pub exiting_flag : Option Ptr → ℕ
exiting_flag none = 1
exiting_flag (some p) = 0

unfoldable pub set_pages : Os → (thread exiting next : ℕ) → Pages → Pages
set_pages os thread exiting next m =
    let r = protect_pages os thread exiting m.pager m.pages_left m.counts in
    record { pager = r.0; pages_left = r.1; counts = r.2; curr_thread = next }

-- Lines 263 to 330; `save` is nothing where `exited` is 1.
unfoldable pub paged_dispatch :
    Os → (save : Option Ptr) → (exiting_id : ℕ) → Sched → Pages → Run PagedSwitch
paged_dispatch os save exiting_id s m = do
  w ← dispatch save s
  n ← load w.sched.cell w.resume
  leaving ← leaving_thread w.sched.cell save exiting_id
  ok (record { switch = w; pages = set_pages os leaving (exiting_flag save) n.thread_id m })

-- Lines 177 to 261 for a thread that has run, and lines 154 to 176 for the first run.
unfoldable pub paged_scheduler :
    ℕ → (fresh : Ptr) → (whole : Bool) → Os → Sched → Pages → Run PagedSwitch
paged_scheduler f fresh whole os s m = elim (s.run_queue.head == null) [
  | true ↦ do
    s1 ← paged_create_running_queue f (adopt s fresh)
    paged_dispatch os (some fresh) 0 s1 m
  | false ↦ do
    n ← load s.cell s.run_queue.head
    (elim (is_exited n.status) [
      | true ↦ do
        s1 ← paged_refill_if_empty f (retire s s.run_queue.head n)
        paged_dispatch os none n.thread_id s1 m
      | false ↦ do
        s1 ← put_back whole s s.run_queue.head n
        s2 ← paged_refill_if_empty f s1
        paged_dispatch os (some s.run_queue.head) 0 s2 m
    ])
]

-- my_pthread_yield and sig_handler.
unfoldable pub paged_yield : ℕ → (fresh : Ptr) → Os → Sched → Pages → Run PagedSwitch
paged_yield f fresh os s m = paged_scheduler f fresh false os s m

unfoldable pub paged_sig_handler : ℕ → (fresh : Ptr) → Os → Sched → Pages → Run PagedSwitch
paged_sig_handler f fresh os s m = paged_scheduler f fresh true os s m
