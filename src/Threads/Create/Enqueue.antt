-- ===== src/Threads/Create/Enqueue.antt =====
-- A new thread waits at the end of queue 0.
use mathlib.Core.Path.{subst}
use simple_os_dev_projs.Base.{
  ◌≡◌, ◌≢◌, refl, ◌∙◌, some, List, [], ◌∷◌, ◌++◌, arith, ok, Ends, ends, update, update_ne,
}
use simple_os_dev_projs.Threads.State.{Ptr, null, Node, Sched}
use simple_os_dev_projs.Threads.Chain.{Absent, Distinct, set_next-some, Chain-append}
use simple_os_dev_projs.Threads.Load.Relink.{
  IsLast-append, IsLast-mem, last_node, Chain-relink, IsQueue, QueueTo,
}
use simple_os_dev_projs.Threads.Create.{enqueue_new}

enqueue_new-nil :
    (s : Sched) (p : Ptr)
    → s.queue0.head ≡ null
    → enqueue_new s p ≡ ok (record s { queue0 = record { head = p; tail = p } })
unfolding enqueue_new
enqueue_new-nil s p e = ground arith

enqueue_new-cons :
    (s : Sched) (p : Ptr) (t : Node)
    → s.queue0.head ≢ null
    → s.queue0.tail ≢ null
    → s.cell s.queue0.tail ≡ some t
    → enqueue_new s p
      ≡ ok (record s {
        cell = update s.cell s.queue0.tail (some (record t { next = p }));
        queue0 = record { head = s.queue0.head; tail = p };
      })
unfolding enqueue_new
enqueue_new-cons s p t front ne at = ground (arith, set_next-some s.cell s.queue0.tail p ne at)

-- Queue 0 has got the new thread at its end, and nothing else has changed but the link to it.
pub record Enqueued (s : Sched) (stop p : Ptr) (xs : List Ptr) (s' : Sched) : Type 0 where
  pub queued : QueueTo s'.cell stop s'.queue0 (xs ++ p ∷ [])
  pub frame : (a : Ptr) → Absent a xs → s'.cell a ≡ s.cell a
  pub running : s'.run_queue ≡ s.run_queue
  pub flag : s'.empty_running_queue ≡ s.empty_running_queue
  pub level1 : s'.queue1 ≡ s.queue1
  pub level2 : s'.queue2 ≡ s.queue2

-- Where queue 0 is a list of distinct nodes without the new one, the new thread stands at the end of
-- queue 0, behind those that were there, and still points to what its memory held; the running queue
-- and the other queues are the same.
pub enqueue_new-Enqueued :
    (s : Sched) (p : Ptr) (n : Node) (xs : List Ptr)
    → p ≢ null
    → s.cell p ≡ some n
    → IsQueue s.cell s.queue0 xs
    → Distinct xs
    → Absent p xs
    → Ends (Enqueued s n.next p xs) (enqueue_new s p)
enqueue_new-Enqueued s p n [] ne at h d out = rw (enqueue_new-nil s p h.0) (
    ends (record {
      queued = ((n, refl, ne, at, refl), refl);
      frame = λ a o. refl;
      running = refl;
      flag = refl;
      level1 = refl;
      level2 = refl;
    }))
enqueue_new-Enqueued s p n (x ∷ xs) ne at (h, l) d out =
    let (t, t_ne, there) = last_node s.cell null s.queue0.head s.queue0.tail (x ∷ xs) h l in
    let apart : (a : Ptr) → Absent a (x ∷ xs) → a ≢ s.queue0.tail =
      λ a o e. IsLast-mem s.queue0.tail (x ∷ xs) l (subst (λ z. Absent z (x ∷ xs)) e o) in
    rw (enqueue_new-cons s p t (rw h.1 h.2) t_ne there) (
      ends (record {
        queued = (
          (Chain-append (update s.cell s.queue0.tail (some (record t { next = p }))) n.next p
              s.queue0.head (x ∷ xs) (p ∷ [])
              (Chain-relink s.cell null s.queue0.head s.queue0.tail p t (x ∷ xs) h d l there)
              (n, refl, ne, update_ne s.cell s.queue0.tail _ p (apart p out) ∙ at, refl)),
          IsLast-append p (x ∷ xs),
        );
        frame = λ a o. update_ne s.cell s.queue0.tail _ a (apart a o);
        running = refl;
        flag = refl;
        level1 = refl;
        level2 = refl;
      }))
