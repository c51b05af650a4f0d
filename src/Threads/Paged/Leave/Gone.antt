-- ===== src/Threads/Paged/Leave/Gone.antt =====
-- A thread of the memory manager that exits, and the join that waits for it.
use simple_os_dev_projs.Base.{
  ℕ, ◌≡◌, ◌≢◌, refl, true, false, none, some, ok, Ends, ends, Ends-bind, arith, ◌>>=◌, ◌∙◌,
  update_self, update_ne, List,
}
use simple_os_dev_projs.Threads.State.{Ptr, null, Status, Node, Sched}
use simple_os_dev_projs.Threads.Chain.{load-some}
use simple_os_dev_projs.Threads.Scheduler.{is_exited}
use simple_os_dev_projs.Threads.Exit.{Retval, Waits, mark_done, push_retval}
use simple_os_dev_projs.Threads.Exit.Leave.{exiting}
use simple_os_dev_projs.Threads.Paged.Switch.{Pages, paged_yield, paged_scheduler}
use simple_os_dev_projs.Threads.Paged.Released.{HandedOver, Accounts, paged_scheduler-Released}
use simple_os_dev_projs.Threads.Paged.Leave.{keep_retval, paged_exit}
use simple_os_dev_projs.Memory.Pages.{Os}
use simple_os_dev_projs.Memory.Pages.Evict.{Numbered}

keep_retval-ok :
    (thread value : ℕ) (rs : List Retval)
    → keep_retval true true thread value rs ≡ ok (push_retval thread value rs)
unfolding keep_retval push_retval
keep_retval-ok thread value rs = ground arith

paged_exit-eq :
    (f : ℕ) (fresh : Ptr) (os : Os) (value : ℕ) (s : Sched) (pages : Pages) (w : Waits) (n : Node)
    → s.run_queue.head ≢ null
    → s.cell s.run_queue.head ≡ some n
    → paged_exit f fresh os true true value s pages w ≡ (
        paged_scheduler f fresh false os (exiting s n) pages >>= λ r. ok (
          r,
          record {
            joins = mark_done n.thread_id w.joins;
            retvals = push_retval n.thread_id value w.retvals;
          },
        ))
unfolding paged_exit paged_yield
paged_exit-eq f fresh os value s pages w n ne at =
    rw (load-some s.cell s.run_queue.head ne at, keep_retval-ok n.thread_id value w.retvals) refl

-- Where another thread is behind the one that runs, the flag does not say that no thread is left,
-- myallocate gives the blocks for the value, every page can be protected and the page nodes are
-- numbered, my_pthread_exit of the memory manager frees the thread's node and resumes the next
-- without saving a context. Each page of the thread is closed, blank, nobody's and at its own place
-- if no page from the first one up to it is free; as many pages as the thread had been given are added
-- to those that are left, it has none any more, and no other thread's number changes. The first join
-- that waits for the thread is told, and its value is put on the list.
pub paged_exit-Released :
    (f : ℕ) (fresh : Ptr) (os : Os) (value : ℕ) (s : Sched) (pages : Pages) (w : Waits) (n m : Node)
    → s.run_queue.head ≢ null
    → s.cell s.run_queue.head ≡ some n
    → n.next ≢ null
    → n.next ≢ s.run_queue.head
    → s.cell n.next ≡ some m
    → s.empty_running_queue ≢ 1
    → ((j : ℕ) → os.mprotect j ≡ true)
    → Numbered pages.pager.table
    → Ends
        (λ r.
          (r.0.switch.save ≡ none)
          × (r.0.switch.resume ≡ n.next)
          × (r.0.switch.sched.cell s.run_queue.head ≡ none)
          × HandedOver pages n.thread_id 1 m.thread_id r.0.pages
          × Accounts pages n.thread_id r.0.pages
          × (r.1.joins ≡ mark_done n.thread_id w.joins)
          × (r.1.retvals ≡ push_retval n.thread_id value w.retvals))
        (paged_exit f fresh os true true value s pages w)
unfolding is_exited
paged_exit-Released f fresh os value s pages w n m ne at next_ne far next_at left works num =
    rw (paged_exit-eq f fresh os value s pages w n ne at) (
      Ends-bind
        (paged_scheduler-Released f fresh false os (exiting s n) pages
          (record n { status = Status.exited }) m ne (update_self s.cell s.run_queue.head _) refl
          next_ne far (update_ne s.cell s.run_queue.head _ n.next far ∙ next_at) left works num)
        λ r d. ends (d.0, d.1, d.2, d.3, d.4, refl, refl))
