-- ===== src/Threads/Create/Begin/Switched.antt =====
-- A creation together with the scheduler that it calls.
use mathlib.Core.Path.{subst}
use simple_os_dev_projs.Base.{
  ℕ, ◌+◌, ◌%◌, ◌^◌, ◌≡◌, ◌≢◌, sym, ap, ◌∙◌, false, some, List, [], ◌∷◌, ◌++◌, Ends, update,
  update_self, update_ne,
}
use simple_os_dev_projs.Threads.State.{Ptr, null, Node, Sched}
use simple_os_dev_projs.Threads.Chain.{Absent, Distinct, Absent-append}
use simple_os_dev_projs.Threads.Load.Relink.{IsQueue, QueueTo}
use simple_os_dev_projs.Threads.Scheduler.{Switch, after_slice, is_exited}
use simple_os_dev_projs.Threads.Scheduler.Slice.{IsCharged}
use simple_os_dev_projs.Threads.Scheduler.Requeue.{queue_at, IsQueue-update}
use simple_os_dev_projs.Threads.Scheduler.Rounds.{Swapped}
use simple_os_dev_projs.Threads.Create.{Fresh, Result, new_node, enqueue_new}
use simple_os_dev_projs.Threads.Create.Enqueue.{Enqueued, enqueue_new-Enqueued}
use simple_os_dev_projs.Threads.Create.Begin.{Library}

-- The creator runs at level 0 and stays there, another thread `m` is behind it in the running queue,
-- queue 0 is a list without these two and without the new node. Where the
-- new node points is open: the code does not set it.
pub record CreatorRuns (s : Sched) (fr : Fresh) (xs : List Ptr) (n m : Node) : Type 0 where
  pub given : fr.node ≢ null
  pub queued : IsQueue s.cell s.queue0 xs
  pub distinct : Distinct xs
  pub new_outside : Absent fr.node xs
  pub runs : s.run_queue.head ≢ null
  pub creator : s.cell s.run_queue.head ≡ some n
  pub live : is_exited n.status ≡ false
  pub charge : IsCharged n
  pub stays : (after_slice false n).priority ≡ 0
  pub more : n.next ≢ null
  pub next_apart : n.next ≢ s.run_queue.head
  pub next : s.cell n.next ≡ some m
  pub some_left : s.empty_running_queue ≢ 1
  pub creator_outside : Absent s.run_queue.head xs
  pub next_outside : Absent n.next xs
  pub new_apart : (s.run_queue.head ≢ fr.node) × (n.next ≢ fr.node)

-- What the creation comes to.
pub record Switched (l : Library) (fr : Fresh) (xs : List Ptr) (n m : Node) (r : Result)
    : Type 0 where
  pub success : r.errno ≡ 0
  pub number : r.thread ≡ l.thread_count
  pub counted : r.thread_count ≡ (l.thread_count + 1) % 2 ^ 32
  pub switched :
      (w : Switch) × (r.switch ≡ some w)
      × Swapped false (xs ++ fr.node ∷ []) l.sched.run_queue.head n.next n m w

Absent-snoc : (a p : Ptr) (xs : List Ptr) → a ≢ p → Absent a xs → Absent a (xs ++ p ∷ [])
Absent-snoc a p xs ne out = (Absent-append a xs (p ∷ [])).1 (out, (ne, tt))

Distinct-snoc : (p : Ptr) (xs : List Ptr) → Distinct xs → Absent p xs → Distinct (xs ++ p ∷ [])
Distinct-snoc p [] d out = (tt, tt)
Distinct-snoc p (x ∷ xs) d out =
    (Absent-snoc x p xs (λ e. out.0 (sym e)) d.0, Distinct-snoc p xs d.1 out.1)

-- The creation's state with the new node's cell filled.
abbrev pub with_new : Sched → Fresh → ℕ → Sched
with_new s fr count = record s { cell = update s.cell fr.node (some (new_node count fr.old_next)) }

-- What the scheduler finds: the creator, the thread behind it, and the queue that the creator gets.
pub record NextUp (s : Sched) (stop h : Ptr) (n m : Node) (ys : List Ptr) : Type 0 where
  pub head : s.run_queue.head ≡ h
  pub runs : s.run_queue.head ≢ null
  pub creator : s.cell s.run_queue.head ≡ some n
  pub next_apart : n.next ≢ s.run_queue.head
  pub next : s.cell n.next ≡ some m
  pub some_left : s.empty_running_queue ≢ 1
  pub queued : QueueTo s.cell stop (queue_at s (after_slice false n).priority) ys
  pub distinct : Distinct ys
  pub creator_outside : Absent s.run_queue.head ys
  pub next_outside : Absent n.next ys

pub Enqueued-NextUp :
    (s : Sched) (fr : Fresh) (count : ℕ) (xs : List Ptr) (n m : Node) (s1 : Sched)
    → CreatorRuns s fr xs n m
    → Enqueued (with_new s fr count) fr.old_next fr.node xs s1
    → NextUp s1 fr.old_next s.run_queue.head n m (xs ++ fr.node ∷ [])
Enqueued-NextUp s fr count xs n m s1 c e =
    let head : s1.run_queue.head ≡ s.run_queue.head = ap (λ q. q.head) e.running in
    let kept : (a : Ptr) → Absent a xs → a ≢ fr.node → s1.cell a ≡ s.cell a =
      λ a o ne. e.frame a o ∙ update_ne s.cell fr.node _ a ne in
    record {
      head = head;
      runs = λ z. c.runs (sym head ∙ z);
      creator = ap s1.cell head ∙ kept s.run_queue.head c.creator_outside c.new_apart.0 ∙ c.creator;
      next_apart = λ z. c.next_apart (z ∙ head);
      next = kept n.next c.next_outside c.new_apart.1 ∙ c.next;
      some_left = λ z. c.some_left (sym e.flag ∙ z);
      queued = rw c.stays e.queued;
      distinct = Distinct-snoc fr.node xs c.distinct c.new_outside;
      creator_outside =
          subst (λ h. Absent h (xs ++ fr.node ∷ [])) (sym head)
            (Absent-snoc s.run_queue.head fr.node xs c.new_apart.0 c.creator_outside);
      next_outside = Absent-snoc n.next fr.node xs c.new_apart.1 c.next_outside;
    }

pub enqueue_new-with_new :
    (s : Sched) (fr : Fresh) (count : ℕ) (xs : List Ptr) (n m : Node)
    → CreatorRuns s fr xs n m
    → Ends
        (Enqueued (with_new s fr count) fr.old_next fr.node xs)
        (enqueue_new (with_new s fr count) fr.node)
enqueue_new-with_new s fr count xs n m c =
    enqueue_new-Enqueued (with_new s fr count) fr.node (new_node count fr.old_next) xs c.given
      (update_self s.cell fr.node _)
      (IsQueue-update s.cell s.queue0 fr.node _ xs c.new_outside c.queued) c.distinct c.new_outside
