-- ===== src/Threads/Scheduler/Requeue.antt =====
-- A thread goes to the end of the queue of its level.
use mathlib.Core.Path.{subst}
use simple_os_dev_projs.Base.{
  ℕ, zero, suc, ◌≤◌, ◌≡◌, ◌≢◌, refl, sym, ◌∙◌, some, Bool, List, [], ◌∷◌, ◌++◌, arith, ok, Ends,
  ends, Ends-bind, ◌==◌, if◌then◌else◌, update, update_ne, update_self,
}
use simple_os_dev_projs.Threads.State.{Ptr, null, Node, Queue, Cells, Sched}
use simple_os_dev_projs.Threads.Chain.{Absent, Distinct, set_next-some, Chain-update, Chain-append}
use simple_os_dev_projs.Threads.Load.Relink.{
  IsLast-append, IsLast-mem, last_node, Chain-relink, IsQueue, IsQueue-frame, QueueTo,
  QueueTo-frame, IsQueue-QueueTo,
}
use simple_os_dev_projs.Threads.Scheduler.Slice.{IsCharged, after_slice-IsCharged}
use simple_os_dev_projs.Threads.Scheduler.{
  Pushed, push_back, requeue, put_back, after_slice, with_head,
}

record Grown (c : Cells) (xs : List Ptr) (p : Ptr) (n : Node) (r : Pushed) : Type 0 where
  block : r.cell p ≡ some (record n { next = null })
  holds : IsQueue r.cell r.queue (xs ++ p ∷ [])
  frame : (a : Ptr) → Absent a xs → a ≢ p → r.cell a ≡ c a

push_back-nil :
    (c : Cells) (q : Queue) (p : Ptr) (n : Node)
    → p ≢ null
    → c p ≡ some n
    → q.tail ≡ null
    → push_back c q p
      ≡ ok (record {
        cell = update c p (some (record n { next = null }));
        queue = record { head = p; tail = p };
      })
unfolding push_back
push_back-nil c q p n ne at e = ground (arith, set_next-some c p null ne at)

abbrev linked : Cells → Queue → Ptr → Node → Cells
linked c q p t = update c q.tail (some (record t { next = p }))

push_back-cons :
    (c : Cells) (q : Queue) (p : Ptr) (n t : Node)
    → p ≢ null
    → linked c q p t p ≡ some n
    → q.tail ≢ null
    → c q.tail ≡ some t
    → push_back c q p
      ≡ ok (record {
        cell = update (linked c q p t) p (some (record n { next = null }));
        queue = record { head = q.head; tail = p };
      })
unfolding push_back
push_back-cons c q p n t ne at last there =
    ground (arith, set_next-some c q.tail p last there, set_next-some (linked c q p t) p null ne at)

push_back-Grown :
    (c : Cells) (stop : Ptr) (q : Queue) (p : Ptr) (n : Node) (xs : List Ptr)
    → p ≢ null
    → c p ≡ some n
    → QueueTo c stop q xs
    → Distinct xs
    → Absent p xs
    → Ends (Grown c xs p n) (push_back c q p)
push_back-Grown c stop q p n [] ne at h d out = rw (push_back-nil c q p n ne at h.1) (
    ends (record {
      block = update_self c p _;
      holds = ((record n { next = null }, refl, ne, update_self c p _, refl), refl);
      frame = λ a o far. update_ne c p _ a far;
    }))
push_back-Grown c stop q p n (x ∷ xs) ne at (h, l) d out =
    rw (push_back-cons c q p n t ne kept not_null there) (
      ends (record {
        block = update_self (linked c q p t) p _;
        holds = (
          Chain-append (update (linked c q p t) p (some (record n { next = null }))) null p q.head
              (x ∷ xs) (p ∷ [])
              (Chain-update (linked c q p t) p q.head p (record n { next = null }) (x ∷ xs) out
                (Chain-relink c stop q.head q.tail p t (x ∷ xs) h d l there))
              (record n { next = null }, refl, ne, update_self (linked c q p t) p _, refl),
          IsLast-append p (x ∷ xs),
        );
        frame = λ a o far.
            update_ne (linked c q p t) p _ a far
            ∙ update_ne c q.tail _ a (λ e. tail_in (subst (λ z. Absent z (x ∷ xs)) e o));
      }))
  where
    found : (t : Node) × (q.tail ≢ null) × (c q.tail ≡ some t)
    found = last_node c stop q.head q.tail (x ∷ xs) h l

    t : Node
    t = found.0

    not_null : q.tail ≢ null
    not_null = found.1

    there : c q.tail ≡ some t
    there = found.2

    tail_in : ¬ Absent q.tail (x ∷ xs)
    tail_in = IsLast-mem q.tail (x ∷ xs) l

    kept : linked c q p t p ≡ some n
    kept = update_ne c q.tail _ p (λ e. tail_in (subst (λ z. Absent z (x ∷ xs)) e out)) ∙ at

-- The queue that the scheduler takes for a level.
abbrev pub queue_at : Sched → ℕ → Queue
queue_at s l = if l == 2 then s.queue2 else if l == 1 then s.queue1 else s.queue0

pub record Requeued (s : Sched) (xs : List Ptr) (p l : ℕ) (n : Node) (s' : Sched) : Type 0 where
  pub block : s'.cell p ≡ some (record n { next = null })
  pub holds : IsQueue s'.cell (queue_at s' l) (xs ++ p ∷ [])
  pub frame : (a : Ptr) → Absent a xs → a ≢ p → s'.cell a ≡ s.cell a
  pub others : (j : ℕ) → j ≤ 2 → j ≢ l → queue_at s' j ≡ queue_at s j
  pub running : s'.run_queue ≡ s.run_queue
  pub flag : s'.empty_running_queue ≡ s.empty_running_queue

requeue-Requeued :
    (stop : Ptr) (s : Sched) (p l : ℕ) (n : Node) (xs : List Ptr)
    → l ≤ 2
    → p ≢ null
    → s.cell p ≡ some n
    → QueueTo s.cell stop (queue_at s l) xs
    → Distinct xs
    → Absent p xs
    → Ends (Requeued s xs p l n) (requeue s p l)
unfolding requeue
requeue-Requeued stop s p zero n xs le ne at h d out =
    Ends-bind (push_back-Grown s.cell stop s.queue0 p n xs ne at h d out) λ r g. ends (record {
      block = g.block;
      holds = g.holds;
      frame = g.frame;
      others = λ j lj nj. ground arith;
      running = refl;
      flag = refl;
    })
requeue-Requeued stop s p (suc zero) n xs le ne at h d out =
    Ends-bind (push_back-Grown s.cell stop s.queue1 p n xs ne at h d out) λ r g. ends (record {
      block = g.block;
      holds = g.holds;
      frame = g.frame;
      others = λ j lj nj. ground arith;
      running = refl;
      flag = refl;
    })
requeue-Requeued stop s p (suc (suc zero)) n xs le ne at h d out =
    Ends-bind (push_back-Grown s.cell stop s.queue2 p n xs ne at h d out) λ r g. ends (record {
      block = g.block;
      holds = g.holds;
      frame = g.frame;
      others = λ j lj nj. ground arith;
      running = refl;
      flag = refl;
    })
requeue-Requeued stop s p (suc (suc (suc l))) n xs le ne at h d out = absurd (omega arith)

pub IsQueue-update :
    (c : Cells) (q : Queue) (a : Ptr) (n : Node) (xs : List Ptr)
    → Absent a xs
    → IsQueue c q xs
    → IsQueue (update c a (some n)) q xs
IsQueue-update c q a n xs out h =
    IsQueue-frame c (update c a (some n)) q xs
      (λ b inside. update_ne c a (some n) b (λ e. inside (subst (λ z. Absent z xs) (sym e) out))) h

-- The state that is read and written when the thread at `p` goes back into a queue.
abbrev pub charged : Bool → Sched → Ptr → Node → Sched
charged whole s p n = record (with_head s n.next) {
  cell = update s.cell p (some (after_slice whole n));
}

pub QueueTo-update :
    (c : Cells) (stop : Ptr) (q : Queue) (a : Ptr) (n : Node) (xs : List Ptr)
    → Absent a xs
    → QueueTo c stop q xs
    → QueueTo (update c a (some n)) stop q xs
QueueTo-update c stop q a n xs out h =
    QueueTo-frame c (update c a (some n)) stop q xs
      (λ b inside. update_ne c a (some n) b (λ e. inside (subst (λ z. Absent z xs) (sym e) out))) h

-- A thread goes to the end of the queue of its level as below, wherever the last node of that queue
-- points: the pointer is written over.
pub put_back-Requeued_open :
    (whole : Bool) (s : Sched) (stop p : Ptr) (n : Node) (xs : List Ptr)
    → IsCharged n
    → p ≢ null
    → QueueTo s.cell stop (queue_at s (after_slice whole n).priority) xs
    → Distinct xs
    → Absent p xs
    → Ends
        (Requeued (charged whole s p n) xs p (after_slice whole n).priority (after_slice whole n))
        (put_back whole s p n)
unfolding put_back
put_back-Requeued_open whole s stop p n xs ok_n ne h d out =
    requeue-Requeued stop (charged whole s p n) p (after_slice whole n).priority
      (after_slice whole n) xs (after_slice-IsCharged whole n ok_n).0.level ne
      (update_self s.cell p _)
      (QueueTo-update s.cell stop (queue_at s (after_slice whole n).priority) p
        (after_slice whole n) xs out h)
      d out

-- A thread with a level up to 2 and less than 375 milliseconds that ran goes to the end of the
-- queue of its level after the slice, a list of distinct nodes without it. Its node is the last of
-- that queue, and the other two queues, the rest of the store, the running queue and the flag stay
-- as they were.
pub put_back-Requeued :
    (whole : Bool) (s : Sched) (p : Ptr) (n : Node) (xs : List Ptr)
    → IsCharged n
    → p ≢ null
    → IsQueue s.cell (queue_at s (after_slice whole n).priority) xs
    → Distinct xs
    → Absent p xs
    → Ends
        (Requeued (charged whole s p n) xs p (after_slice whole n).priority (after_slice whole n))
        (put_back whole s p n)
put_back-Requeued whole s p n xs ok_n ne h d out =
    put_back-Requeued_open whole s null p n xs ok_n ne (IsQueue-QueueTo s.cell _ xs h) d out
