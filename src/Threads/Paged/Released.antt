-- ===== src/Threads/Paged/Released.antt =====
-- What a call of the memory manager's scheduler does to the threads and to their pages.
use simple_os_dev_projs.Base.{
  ℕ, ◌+◌, ◌<◌, ◌≤◌, ◌≡◌, ◌≢◌, refl, sym, ◌∙◌, some, none, Bool, true, false, List, ap, subst, ok,
  Ends, ends, Ends-value, ◌>>=◌, update_self, update_ne,
}
use simple_os_dev_projs.Threads.State.{Ptr, null, Node, Sched}
use simple_os_dev_projs.Threads.Chain.{Absent, Distinct, load-some}
use simple_os_dev_projs.Threads.Load.Relink.{IsQueue, QueueTo, IsQueue-QueueTo}
use simple_os_dev_projs.Threads.Scheduler.{after_slice, Switch, is_exited}
use simple_os_dev_projs.Threads.Scheduler.Slice.{IsCharged, after_slice-IsCharged}
use simple_os_dev_projs.Threads.Scheduler.Requeue.{queue_at, put_back-Requeued_open}
use simple_os_dev_projs.Threads.Scheduler.Rounds.{
  Swapped, scheduler-Swapped_open, scheduler-retires,
}
use simple_os_dev_projs.Threads.Paged.Switch.{
  Pages, leaving_thread, exiting_flag, set_pages, paged_scheduler,
}
use simple_os_dev_projs.Threads.Paged.Handover.{
  protect_then, paged-finish_live, paged-finish_exited,
}
use simple_os_dev_projs.Memory.Pages.{Os}
use simple_os_dev_projs.Memory.Pages.Evict.{Numbered}
use simple_os_dev_projs.Memory.Fault.{protect_pages}
use simple_os_dev_projs.Memory.Fault.Close.{Protected}
use simple_os_dev_projs.Memory.Fault.Protect.{protect_pages-Protected}

abbrev pub owner : Pages → (page : ℕ) → ℕ
owner m page = (m.pager.table page).thread_id

-- `currThread` is the next thread, and each page of the thread that leaves is closed, and for an exiting
-- thread given back, if no page from the first one up to it is free.
pub record HandedOver (m : Pages) (leaving exiting next : ℕ) (u : Pages) : Type 0 where
  pub current : u.curr_thread ≡ next
  pub closed :
      (j : ℕ)
      → j < 1600
      → ((i : ℕ) → i ≤ j → owner m i ≢ 0)
      → owner m j ≡ leaving
      → Protected exiting j u.pager

set_pages-HandedOver :
    (os : Os) (leaving exiting next : ℕ) (m : Pages)
    → ((j : ℕ) → os.mprotect j ≡ true)
    → Numbered m.pager.table
    → HandedOver m leaving exiting next (set_pages os leaving exiting next m)
unfolding set_pages
set_pages-HandedOver os leaving exiting next m works num = record {
  current = refl;
  closed = λ j below occupied own.
      protect_pages-Protected os leaving exiting m.pager m.pages_left m.counts j (works j) num below
        occupied own;
}

-- The accounts of the pages: an exiting thread's go to those that are left.
pub record Accounts (m : Pages) (leaving : ℕ) (u : Pages) : Type 0 where
  pub returned : u.pages_left ≡ m.pages_left + m.counts leaving
  pub none_kept : u.counts leaving ≡ 0
  pub others : (t : ℕ) → t ≢ leaving → u.counts t ≡ m.counts t

set_pages-kept :
    (os : Os) (leaving next : ℕ) (m : Pages)
    → ((set_pages os leaving 0 next m).pages_left ≡ m.pages_left)
      × ((set_pages os leaving 0 next m).counts ≡ m.counts)
unfolding set_pages protect_pages
set_pages-kept os leaving next m = (refl, refl)

set_pages-Accounts :
    (os : Os) (leaving next : ℕ) (m : Pages) → Accounts m leaving (set_pages os leaving 1 next m)
unfolding set_pages protect_pages
set_pages-Accounts os leaving next m = record {
  returned = refl;
  none_kept = update_self m.counts leaving 0;
  others = λ t ne. update_ne m.counts leaving 0 t ne;
}

protect_then-save :
    (os : Os) (m : Pages) (w : Switch) (p : Ptr) (a b : Node)
    → w.resume ≢ null
    → w.sched.cell w.resume ≡ some a
    → p ≢ null
    → w.sched.cell p ≡ some b
    → protect_then os (some p) 0 m w
      ≡ ok (record { switch = w; pages = set_pages os b.thread_id 0 a.thread_id m })
unfolding leaving_thread exiting_flag
protect_then-save os m w p a b ne at ne_p at_p =
    rw (load-some w.sched.cell w.resume ne at) (rw (load-some w.sched.cell p ne_p at_p, ◌>>=◌) refl)

protect_then-exit :
    (os : Os) (m : Pages) (w : Switch) (id : ℕ) (a : Node)
    → w.resume ≢ null
    → w.sched.cell w.resume ≡ some a
    → protect_then os none id m w
      ≡ ok (record { switch = w; pages = set_pages os id 1 a.thread_id m })
unfolding leaving_thread exiting_flag
protect_then-exit os m w id a ne at = rw (load-some w.sched.cell w.resume ne at) refl

module _ (f : ℕ) (fresh : Ptr) (whole : Bool) (os : Os) (s : Sched) (pages : Pages)
    (n m : Node) where
  -- The switch where the last node of the queue may point anywhere.
  pub paged_scheduler-HandedOver_open :
      (stop : Ptr) (xs : List Ptr)
      → s.run_queue.head ≢ null
      → s.cell s.run_queue.head ≡ some n
      → is_exited n.status ≡ false
      → IsCharged n
      → n.next ≢ null
      → n.next ≢ s.run_queue.head
      → s.cell n.next ≡ some m
      → s.empty_running_queue ≢ 1
      → QueueTo s.cell stop (queue_at s (after_slice whole n).priority) xs
      → Distinct xs
      → Absent s.run_queue.head xs
      → Absent n.next xs
      → ((j : ℕ) → os.mprotect j ≡ true)
      → Numbered pages.pager.table
      → Ends
          (λ w.
            Swapped whole xs s.run_queue.head n.next n m w.switch
            × HandedOver pages n.thread_id 0 m.thread_id w.pages
            × (w.pages.pages_left ≡ pages.pages_left)
            × (w.pages.counts ≡ pages.counts))
          (paged_scheduler f fresh whole os s pages)
  paged_scheduler-HandedOver_open stop xs ne at live charge next_ne far next_at left h d out out'
        works num =
      let back =
        Ends-value (put_back-Requeued_open whole s stop s.run_queue.head n xs charge ne h d out) in
      let head : back.0.run_queue.head ≡ n.next = ap (λ q. q.head) back.2.running in
      let swapped = Ends-value (
        scheduler-Swapped_open f fresh whole s n m stop xs ne at live charge next_ne far next_at
          left h d out out') in
      let w = swapped.0 in
      let id = (after_slice-IsCharged whole n charge).1.1 in
      let kept = set_pages-kept os (after_slice whole n).thread_id m.thread_id pages in
      rw
        (paged-finish_live f fresh whole os s pages n back.0 ne at live back.1
          (λ e. next_ne (sym head ∙ e)))
        (rw swapped.1 (
          rw
            (protect_then-save os pages w s.run_queue.head _ _
              (λ e. next_ne (sym swapped.2.resumes ∙ e))
              (ap w.sched.cell swapped.2.resumes ∙ swapped.2.runs) ne swapped.2.block)
            (ends (
              swapped.2,
              subst
                  (λ t.
                    HandedOver pages t 0 m.thread_id
                      (set_pages os (after_slice whole n).thread_id 0 m.thread_id pages))
                  id
                  (set_pages-HandedOver os (after_slice whole n).thread_id 0 m.thread_id pages works
                    num),
              kept.0,
              kept.1,
            ))))

  -- Where the thread at the head of the running queue has not exited, another thread is behind it,
  -- the flag does not say that no thread is left, the queue of the level that it gets is a list of
  -- distinct nodes without these two, every page can be protected and the page nodes are numbered,
  -- the memory manager's scheduler puts the thread at the end of that queue and resumes the next,
  -- which becomes the current thread. Each page of the thread that leaves is closed if no page from
  -- the first one up to it is free, and the accounts of the pages stay as they were.
  pub paged_scheduler-HandedOver :
      (xs : List Ptr)
      → s.run_queue.head ≢ null
      → s.cell s.run_queue.head ≡ some n
      → is_exited n.status ≡ false
      → IsCharged n
      → n.next ≢ null
      → n.next ≢ s.run_queue.head
      → s.cell n.next ≡ some m
      → s.empty_running_queue ≢ 1
      → IsQueue s.cell (queue_at s (after_slice whole n).priority) xs
      → Distinct xs
      → Absent s.run_queue.head xs
      → Absent n.next xs
      → ((j : ℕ) → os.mprotect j ≡ true)
      → Numbered pages.pager.table
      → Ends
          (λ w.
            Swapped whole xs s.run_queue.head n.next n m w.switch
            × HandedOver pages n.thread_id 0 m.thread_id w.pages
            × (w.pages.pages_left ≡ pages.pages_left)
            × (w.pages.counts ≡ pages.counts))
          (paged_scheduler f fresh whole os s pages)
  paged_scheduler-HandedOver xs ne at live charge next_ne far next_at left h d out out' works num =
      paged_scheduler-HandedOver_open null xs ne at live charge next_ne far next_at left
        (IsQueue-QueueTo s.cell _ xs h) d out out' works num

  -- Where the thread at the head of the running queue has exited, another thread is behind it, the
  -- flag does not say that no thread is left, every page can be protected and the page nodes are
  -- numbered, the memory manager's scheduler frees the thread's node and resumes the next without
  -- saving a context. Each page of the thread is closed, blank, nobody's and at its own place if no
  -- page from the first one up to it is free; as many pages as the thread had been given are added
  -- to those that are left, it has none any more, and no other thread's number changes.
  pub paged_scheduler-Released :
      s.run_queue.head ≢ null
      → s.cell s.run_queue.head ≡ some n
      → is_exited n.status ≡ true
      → n.next ≢ null
      → n.next ≢ s.run_queue.head
      → s.cell n.next ≡ some m
      → s.empty_running_queue ≢ 1
      → ((j : ℕ) → os.mprotect j ≡ true)
      → Numbered pages.pager.table
      → Ends
          (λ w.
            (w.switch.save ≡ none)
            × (w.switch.resume ≡ n.next)
            × (w.switch.sched.cell s.run_queue.head ≡ none)
            × HandedOver pages n.thread_id 1 m.thread_id w.pages
            × Accounts pages n.thread_id w.pages)
          (paged_scheduler f fresh whole os s pages)
  paged_scheduler-Released ne at gone next_ne far next_at left works num =
      let retired =
        Ends-value (scheduler-retires f fresh whole s n m ne at gone next_ne far next_at left) in
      let w = retired.0 in
      let told = retired.2 in
      rw (paged-finish_exited f fresh whole os s pages n ne at gone next_ne) (
        rw retired.1 (
          rw
            (protect_then-exit os pages w n.thread_id _ (λ e. next_ne (sym told.1 ∙ e))
              (ap w.sched.cell told.1 ∙ told.4))
            (ends (
              told.0,
              told.1,
              told.3,
              set_pages-HandedOver os n.thread_id 1 m.thread_id pages works num,
              set_pages-Accounts os n.thread_id m.thread_id pages,
            ))))
