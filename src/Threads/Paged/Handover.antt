-- ===== src/Threads/Paged/Handover.antt =====
-- One call of the memory manager's scheduler: the switch is that of the other copy, and the pages
-- of the thread that leaves are protected or given back.
use simple_os_dev_projs.Base.{
  ℕ, ◌≡◌, ◌≢◌, refl, sym, ◌∙◌, Option, some, none, Bool, true, false, arith, ap, Run, ok, ◌>>=◌,
  ◌==◌,
}
use simple_os_dev_projs.Threads.State.{Ptr, null, Node, Sched, load}
use simple_os_dev_projs.Threads.Chain.{load-some}
use simple_os_dev_projs.Threads.Scheduler.{
  put_back, retire, refill_if_empty, Switch, dispatch, is_exited, scheduler,
}
use simple_os_dev_projs.Threads.Scheduler.Rounds.{
  scheduler-live, scheduler-exited, refill_if_empty-skip,
}
use simple_os_dev_projs.Threads.Paged.Switch.{
  Pages, PagedSwitch, paged_refill_if_empty, leaving_thread, exiting_flag, set_pages,
  paged_dispatch, paged_scheduler,
}
use simple_os_dev_projs.Memory.Pages.{Os}

paged_refill-skip : (f : ℕ) (s : Sched) → s.run_queue.head ≢ null → paged_refill_if_empty f s ≡ ok s
unfolding paged_refill_if_empty
paged_refill-skip f s ne = ground arith

-- What the copy does once the other copy's scheduler has chosen.
abbrev pub protect_then :
    Os → (save : Option Ptr) → (exiting_id : ℕ) → Pages → Switch → Run PagedSwitch
protect_then os save exiting_id m w = do
  n ← load w.sched.cell w.resume
  leaving ← leaving_thread w.sched.cell save exiting_id
  ok (record { switch = w; pages = set_pages os leaving (exiting_flag save) n.thread_id m })

null_test : (p : ℕ) → p ≢ null → (p == null) ≡ false
null_test p ne = ground (arith, ne)

module _ (f : ℕ) (fresh : Ptr) (whole : Bool) (os : Os) (s : Sched) (m : Pages) (n : Node) where
  paged-live :
      s.run_queue.head ≢ null
      → s.cell s.run_queue.head ≡ some n
      → is_exited n.status ≡ false
      → paged_scheduler f fresh whole os s m ≡ (
          put_back whole s s.run_queue.head n >>= λ s1.
          paged_refill_if_empty f s1 >>= λ s2. paged_dispatch os (some s.run_queue.head) 0 s2 m)
  unfolding paged_scheduler
  paged-live ne at live =
      rw (null_test s.run_queue.head ne, paged_scheduler)
        (rw (load-some s.cell s.run_queue.head ne at, ◌>>=◌) (rw live refl))

  paged-exited :
      s.run_queue.head ≢ null
      → s.cell s.run_queue.head ≡ some n
      → is_exited n.status ≡ true
      → paged_scheduler f fresh whole os s m ≡ (
          paged_refill_if_empty f (retire s s.run_queue.head n) >>= λ s1.
          paged_dispatch os none n.thread_id s1 m)
  unfolding paged_scheduler
  paged-exited ne at gone =
      rw (null_test s.run_queue.head ne, paged_scheduler)
        (rw (load-some s.cell s.run_queue.head ne at, ◌>>=◌) (rw gone refl))

  dispatch-protect_then :
      (save : Option Ptr) (exiting_id : ℕ) (s1 : Sched)
      → paged_dispatch os save exiting_id s1 m
        ≡ (dispatch save s1 >>= protect_then os save exiting_id m)
  unfolding paged_dispatch
  dispatch-protect_then save exiting_id s1 = refl

  -- Without a refill the copy does what the other scheduler does, and then what is its own.
  pub paged-finish_live :
      (s1 : Sched)
      → s.run_queue.head ≢ null
      → s.cell s.run_queue.head ≡ some n
      → is_exited n.status ≡ false
      → put_back whole s s.run_queue.head n ≡ ok s1
      → s1.run_queue.head ≢ null
      → paged_scheduler f fresh whole os s m
        ≡ (scheduler f fresh whole s >>= protect_then os (some s.run_queue.head) 0 m)
  paged-finish_live s1 ne at live e ne1 =
      let other : scheduler f fresh whole s ≡ dispatch (some s.run_queue.head) s1 =
        scheduler-live f fresh whole s n ne at live
        ∙ ap (λ r. r >>= λ s1. refill_if_empty f s1 >>= λ s2. dispatch (some s.run_queue.head) s2) e
        ∙ ap (λ r. r >>= λ s2. dispatch (some s.run_queue.head) s2)
            (refill_if_empty-skip f s1 ne1) in
      paged-live ne at live
      ∙ ap
          (λ r. r >>= λ s1.
            paged_refill_if_empty f s1 >>= λ s2. paged_dispatch os (some s.run_queue.head) 0 s2 m)
          e
      ∙ ap (λ r. r >>= λ s2. paged_dispatch os (some s.run_queue.head) 0 s2 m)
          (paged_refill-skip f s1 ne1)
      ∙ dispatch-protect_then (some s.run_queue.head) 0 s1
      ∙ sym (ap (λ r. r >>= protect_then os (some s.run_queue.head) 0 m) other)

  pub paged-finish_exited :
      s.run_queue.head ≢ null
      → s.cell s.run_queue.head ≡ some n
      → is_exited n.status ≡ true
      → n.next ≢ null
      → paged_scheduler f fresh whole os s m
        ≡ (scheduler f fresh whole s >>= protect_then os none n.thread_id m)
  unfolding retire
  paged-finish_exited ne at gone next_ne =
      let s1 = retire s s.run_queue.head n in
      paged-exited ne at gone
      ∙ ap (λ r. r >>= λ s1. paged_dispatch os none n.thread_id s1 m)
          (paged_refill-skip f s1 next_ne)
      ∙ dispatch-protect_then none n.thread_id s1
      ∙ sym (
          ap (λ r. r >>= protect_then os none n.thread_id m)
            (scheduler-exited f fresh whole s n ne at gone
              ∙ ap (λ r. r >>= λ s1. dispatch none s1) (refill_if_empty-skip f s1 next_ne)))
