-- ===== src/Threads/Scheduler/Rounds.antt =====
-- One call of the scheduler while the running queue has a successor.
use mathlib.Core.Path.{subst}
use simple_os_dev_projs.Base.{
  ℕ, ◌≡◌, ◌≢◌, refl, sym, ◌∙◌, Option, some, none, Bool, true, false, List, [], ◌∷◌, ◌++◌, arith,
  ap, ok, Ends, ends, Ends-bind, ◌>>=◌, update, update_ne, update_self,
}
use simple_os_dev_projs.Threads.State.{Ptr, null, running, Node, Queue, Sched}
use simple_os_dev_projs.Threads.Chain.{Absent, Distinct, load-some, Absent-append}
use simple_os_dev_projs.Threads.Load.Relink.{IsQueue, QueueTo, IsQueue-QueueTo}
use simple_os_dev_projs.Threads.Scheduler.{
  retire, put_back, after_slice, refill_if_empty, Switch, timer, dispatch, is_exited, scheduler,
}
use simple_os_dev_projs.Threads.Scheduler.Slice.{IsCharged}
use simple_os_dev_projs.Threads.Scheduler.Requeue.{
  queue_at, Requeued, IsQueue-update, charged, put_back-Requeued_open,
}

dispatch-ok :
    (save : Option Ptr) (s : Sched) (m : Node)
    → s.empty_running_queue ≢ 1
    → s.run_queue.head ≢ null
    → s.cell s.run_queue.head ≡ some m
    → dispatch save s
      ≡ ok (record {
        sched = record s {
          cell = update s.cell s.run_queue.head (some (record m { status = running }));
        };
        save = save;
        resume = s.run_queue.head;
        usec = timer m.priority;
      })
unfolding dispatch
dispatch-ok save s m some_left ne at = ground (arith, load-some s.cell s.run_queue.head ne at)

pub refill_if_empty-skip :
    (f : ℕ) (s : Sched) → s.run_queue.head ≢ null → refill_if_empty f s ≡ ok s
unfolding refill_if_empty
refill_if_empty-skip f s ne = ground arith

pub scheduler-live :
    (f : ℕ) (fresh : Ptr) (whole : Bool) (s : Sched) (n : Node)
    → s.run_queue.head ≢ null
    → s.cell s.run_queue.head ≡ some n
    → is_exited n.status ≡ false
    → scheduler f fresh whole s ≡ (
        put_back whole s s.run_queue.head n >>= λ s1.
        refill_if_empty f s1 >>= λ s2. dispatch (some s.run_queue.head) s2)
unfolding scheduler
scheduler-live f fresh whole s n ne at live =
    ground (arith, load-some s.cell s.run_queue.head ne at)

pub scheduler-exited :
    (f : ℕ) (fresh : Ptr) (whole : Bool) (s : Sched) (n : Node)
    → s.run_queue.head ≢ null
    → s.cell s.run_queue.head ≡ some n
    → is_exited n.status ≡ true
    → scheduler f fresh whole s
      ≡ (refill_if_empty f (retire s s.run_queue.head n) >>= λ s1. dispatch none s1)
unfolding scheduler
scheduler-exited f fresh whole s n ne at live =
    ground (arith, load-some s.cell s.run_queue.head ne at)

-- What a call of the scheduler does for the thread `p` with block `n` that ran, and for the thread
-- `r` with block `m` that runs next.
pub record Swapped (whole : Bool) (xs : List Ptr) (p r : Ptr) (n m : Node) (w : Switch)
    : Type 0 where
  pub saves : w.save ≡ some p
  pub resumes : w.resume ≡ r
  pub slice : w.usec ≡ timer m.priority
  pub head : w.sched.run_queue.head ≡ r
  pub runs : w.sched.cell r ≡ some (record m { status = running })
  pub block : w.sched.cell p ≡ some (record (after_slice whole n) { next = null })
  pub queued : IsQueue w.sched.cell (queue_at w.sched (after_slice whole n).priority) (xs ++ p ∷ [])

module _ (f : ℕ) (fresh : Ptr) (whole : Bool) (s : Sched) (n m : Node) where
  -- The switch where the last node of the queue may point anywhere.
  pub scheduler-Swapped_open :
      (stop : Ptr) (xs : List Ptr)
      → s.run_queue.head ≢ null
      → s.cell s.run_queue.head ≡ some n
      → is_exited n.status ≡ false
      → IsCharged n
      → n.next ≢ null
      → n.next ≢ s.run_queue.head
      → s.cell n.next ≡ some m
      → s.empty_running_queue ≢ 1
      → QueueTo s.cell stop (queue_at s (after_slice whole n).priority) xs
      → Distinct xs
      → Absent s.run_queue.head xs
      → Absent n.next xs
      → Ends (Swapped whole xs s.run_queue.head n.next n m) (scheduler f fresh whole s)
  scheduler-Swapped_open stop xs ne at live charge next_ne far next_at left h d out out' =
      rw (scheduler-live f fresh whole s n ne at live) (
        Ends-bind (put_back-Requeued_open whole s stop s.run_queue.head n xs charge ne h d out)
          λ s1 r. resume s1 r)
    where
      resume :
          (s1 : Sched)
          → Requeued
              (charged whole s s.run_queue.head n)
              xs
              s.run_queue.head
              (after_slice whole n).priority
              (after_slice whole n)
              s1
          → Ends
              (Swapped whole xs s.run_queue.head n.next n m)
              (refill_if_empty f s1 >>= λ s2. dispatch (some s.run_queue.head) s2)
      resume s1 r =
          let head : s1.run_queue.head ≡ n.next = ap (λ (q : Queue). q.head) r.running in
          let ne1 : s1.run_queue.head ≢ null = λ e. next_ne (sym head ∙ e) in
          let at1 : s1.cell s1.run_queue.head ≡ some m =
            ap s1.cell head
            ∙ r.frame n.next out' far
            ∙ update_ne s.cell s.run_queue.head _ n.next far
            ∙ next_at in
          rw
            (
              refill_if_empty-skip f s1 ne1,
              dispatch-ok (some s.run_queue.head) s1 m (λ e. left (sym r.flag ∙ e)) ne1 at1,
            )
            (ends (record {
              saves = refl;
              resumes = head;
              slice = refl;
              head = head;
              runs = ground arith;
              block = ground (arith, r.block);
              queued =
                  IsQueue-update s1.cell (queue_at s1 (after_slice whole n).priority)
                    s1.run_queue.head (record m { status = running }) (xs ++ s.run_queue.head ∷ [])
                    (subst (λ z. Absent z (xs ++ s.run_queue.head ∷ [])) (sym head)
                      ((Absent-append n.next xs (s.run_queue.head ∷ [])).1 (out', (far, tt))))
                    r.holds;
            }))

  -- Where the thread at the head of the running queue has not exited, another thread is behind it,
  -- the flag does not say that no thread is left, and the queue of the level that it gets is a
  -- list of distinct nodes without these two, the scheduler puts the thread at the end of that
  -- queue, with its context saved, and the next thread of the running queue is resumed with the
  -- timer of its level.
  pub scheduler-Swapped :
      (xs : List Ptr)
      → s.run_queue.head ≢ null
      → s.cell s.run_queue.head ≡ some n
      → is_exited n.status ≡ false
      → IsCharged n
      → n.next ≢ null
      → n.next ≢ s.run_queue.head
      → s.cell n.next ≡ some m
      → s.empty_running_queue ≢ 1
      → IsQueue s.cell (queue_at s (after_slice whole n).priority) xs
      → Distinct xs
      → Absent s.run_queue.head xs
      → Absent n.next xs
      → Ends (Swapped whole xs s.run_queue.head n.next n m) (scheduler f fresh whole s)
  scheduler-Swapped xs ne at live charge next_ne far next_at left h d out out' =
      scheduler-Swapped_open null xs ne at live charge next_ne far next_at left
        (IsQueue-QueueTo s.cell _ xs h) d out out'

  -- Where the thread at the head of the running queue has exited, another thread is behind it and
  -- the flag does not say that no thread is left, the thread leaves the store and no queue gets
  -- it; its context is not saved, and the next thread of the running queue is resumed with the
  -- timer of its level.
  pub scheduler-retires :
      s.run_queue.head ≢ null
      → s.cell s.run_queue.head ≡ some n
      → is_exited n.status ≡ true
      → n.next ≢ null
      → n.next ≢ s.run_queue.head
      → s.cell n.next ≡ some m
      → s.empty_running_queue ≢ 1
      → Ends
          (λ w.
            (w.save ≡ none)
            × (w.resume ≡ n.next)
            × (w.usec ≡ timer m.priority)
            × (w.sched.cell s.run_queue.head ≡ none)
            × (w.sched.cell n.next ≡ some (record m { status = running }))
            × (w.sched.queue0 ≡ s.queue0)
            × (w.sched.queue1 ≡ s.queue1)
            × (w.sched.queue2 ≡ s.queue2))
          (scheduler f fresh whole s)
  unfolding retire
  scheduler-retires ne at gone next_ne far next_at left =
      let at1 : update s.cell s.run_queue.head none n.next ≡ some m =
        update_ne s.cell s.run_queue.head none n.next far ∙ next_at in
      rw
        (
          scheduler-exited f fresh whole s n ne at gone,
          refill_if_empty-skip f (retire s s.run_queue.head n) next_ne,
          dispatch-ok none (retire s s.run_queue.head n) m left next_ne at1,
        )
        (ends (
          refl,
          refl,
          refl,
          update_ne (update s.cell s.run_queue.head none) n.next _ s.run_queue.head
                (λ e. far (sym e))
              ∙ update_self s.cell s.run_queue.head none,
          update_self (update s.cell s.run_queue.head none) n.next _,
          refl,
          refl,
          refl,
        ))
