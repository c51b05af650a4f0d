-- ===== src/Threads/Exit/Leave.antt =====
-- my_pthread_exit together with the scheduler that it calls.
use simple_os_dev_projs.Base.{
  ℕ, ◌≡◌, ◌≢◌, refl, false, some, none, ok, Ends, ends, Ends-bind, ◌>>=◌, update, update_ne,
  update_self, ◌∙◌,
}
use simple_os_dev_projs.Threads.State.{Ptr, null, running, Status, Node, Sched}
use simple_os_dev_projs.Threads.Chain.{load-some}
use simple_os_dev_projs.Threads.Scheduler.{timer, scheduler, yield_now, is_exited}
use simple_os_dev_projs.Threads.Scheduler.Rounds.{scheduler-retires}
use simple_os_dev_projs.Threads.Exit.{Waits, mark_done, push_retval, thread_exit}

abbrev pub exiting : Sched → Node → Sched
exiting s n = record s {
  cell = update s.cell s.run_queue.head (some (record n { status = Status.exited }));
}

thread_exit-eq :
    (f : ℕ) (fresh : Ptr) (value : ℕ) (s : Sched) (w : Waits) (n : Node)
    → s.run_queue.head ≢ null
    → s.cell s.run_queue.head ≡ some n
    → thread_exit f fresh value s w ≡ (
        scheduler f fresh false (exiting s n) >>= λ r. ok (
          r,
          record {
            joins = mark_done n.thread_id w.joins;
            retvals = push_retval n.thread_id value w.retvals;
          },
        ))
unfolding thread_exit yield_now
thread_exit-eq f fresh value s w n ne at = rw (load-some s.cell s.run_queue.head ne at)

-- A thread that calls exit while another is behind it in the running queue, and the flag does not
-- say that no thread is left, is gone for good: its node is freed, its context is not saved, the
-- next thread runs with the timer of its level, the first join that waits for it is told, and its
-- value is put on the list.
pub thread_exit-retires :
    (f : ℕ) (fresh : Ptr) (value : ℕ) (s : Sched) (w : Waits) (n m : Node)
    → s.run_queue.head ≢ null
    → s.cell s.run_queue.head ≡ some n
    → n.next ≢ null
    → n.next ≢ s.run_queue.head
    → s.cell n.next ≡ some m
    → s.empty_running_queue ≢ 1
    → Ends
        (λ r.
          (r.0.save ≡ none)
          × (r.0.resume ≡ n.next)
          × (r.0.usec ≡ timer m.priority)
          × (r.0.sched.cell s.run_queue.head ≡ none)
          × (r.0.sched.cell n.next ≡ some (record m { status = running }))
          × (r.1.joins ≡ mark_done n.thread_id w.joins)
          × (r.1.retvals ≡ push_retval n.thread_id value w.retvals))
        (thread_exit f fresh value s w)
unfolding is_exited
thread_exit-retires f fresh value s w n m ne at next_ne far next_at left =
    rw (thread_exit-eq f fresh value s w n ne at) (
      Ends-bind
        (scheduler-retires f fresh false (exiting s n) (record n { status = Status.exited }) m ne
          (update_self s.cell s.run_queue.head _) refl next_ne far
          (update_ne s.cell s.run_queue.head _ n.next far ∙ next_at) left)
        λ r d. ends (d.0, d.1, d.2, d.3, d.4, refl, refl))
