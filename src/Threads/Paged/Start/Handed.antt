-- ===== src/Threads/Paged/Start/Handed.antt =====
-- A creation by a thread of the memory manager, with the scheduler that it calls.
use mathlib.Core.Path.{subst}
use simple_os_dev_projs.Base.{
  ℕ, ◌+◌, ◌%◌, ◌^◌, ◌≡◌, ◌≢◌, refl, true, false, some, List, [], ◌∷◌, ◌++◌, arith, ok, Ends, ends,
  Ends-bind, Ends-weaken, ◌>>=◌,
}
use simple_os_dev_projs.Threads.State.{Ptr, null, Node, Sched}
use simple_os_dev_projs.Threads.Scheduler.{is_exited}
use simple_os_dev_projs.Threads.Scheduler.Slice.{IsCharged}
use simple_os_dev_projs.Threads.Scheduler.Rounds.{Swapped}
use simple_os_dev_projs.Threads.Create.{Fresh, enqueue_new}
use simple_os_dev_projs.Threads.Create.Begin.{Answers, Library}
use simple_os_dev_projs.Threads.Create.Begin.Switched.{
  CreatorRuns, with_new, NextUp, Enqueued-NextUp, enqueue_new-with_new,
}
use simple_os_dev_projs.Threads.Paged.Switch.{Pages, PagedSwitch, paged_yield}
use simple_os_dev_projs.Threads.Paged.Released.{HandedOver, paged_scheduler-HandedOver_open}
use simple_os_dev_projs.Threads.Paged.Start.{
  PagedResult, done, paged_create_finish, paged_create_thread, paged_create,
}
use simple_os_dev_projs.Memory.Pages.{Os}
use simple_os_dev_projs.Memory.Pages.Evict.{Numbered}

-- The switch of a thread that goes on living, at `h` of the running queue.
pub record Handed (pages : Pages) (ys : List Ptr) (h : Ptr) (n m : Node) (w : PagedSwitch)
    : Type 0 where
  pub swapped : Swapped false ys h n.next n m w.switch
  pub closed : HandedOver pages n.thread_id 0 m.thread_id w.pages
  pub left : w.pages.pages_left ≡ pages.pages_left
  pub counts : w.pages.counts ≡ pages.counts

-- What the creation comes to.
pub record Started (l : Library) (pages : Pages) (fr : Fresh) (xs : List Ptr) (n m : Node)
    (r : PagedResult) : Type 0 where
  pub success : r.errno ≡ 0
  pub number : r.thread ≡ l.thread_count
  pub counted : r.thread_count ≡ (l.thread_count + 1) % 2 ^ 32
  pub switched :
      (w : PagedSwitch) × (r.switch ≡ some w)
      × Handed pages (xs ++ fr.node ∷ []) l.sched.run_queue.head n m w

paged_yield-Handed :
    (f : ℕ) (first_run : Ptr) (os : Os) (s : Sched) (pages : Pages) (stop h : Ptr) (n m : Node)
    (ys : List Ptr)
    → is_exited n.status ≡ false
    → IsCharged n
    → n.next ≢ null
    → NextUp s stop h n m ys
    → ((j : ℕ) → os.mprotect j ≡ true)
    → Numbered pages.pager.table
    → Ends (Handed pages ys h n m) (paged_yield f first_run os s pages)
unfolding paged_yield
paged_yield-Handed f first_run os s pages stop h n m ys live charge more u works num =
    subst (λ p. Ends (Handed pages ys p n m) (paged_yield f first_run os s pages)) u.head
      (Ends-weaken
        (paged_scheduler-HandedOver_open f first_run false os s pages n m stop ys u.runs u.creator
          live charge more u.next_apart u.next u.some_left u.queued u.distinct u.creator_outside
          u.next_outside works num)
        λ w d. record { swapped = d.0; closed = d.1; left = d.2; counts = d.3 })

paged_create_finish-eq :
    (f : ℕ) (os : Os) (fr : Fresh) (first_run : Ptr) (count : ℕ) (s : Sched) (pages : Pages)
    → fr.node ≢ null
    → paged_create_finish f os fr first_run count s pages ≡ (
        enqueue_new (with_new s fr count) fr.node >>= λ s1.
        paged_yield f first_run os s1 pages >>= λ w. ok (record {
          errno = 0;
          thread = count;
          thread_count = (count + 1) % 2 ^ 32;
          switch = some w;
        }))
unfolding paged_create_finish
paged_create_finish-eq f os fr first_run count s pages ne = ground arith

paged_create-ready :
    (f : ℕ) (os : Os) (a : Answers) (fr : Fresh) (first_run : Ptr) (l : Library) (pages : Pages)
    → l.made ≡ true
    → a.context ≡ true
    → a.stack ≡ true
    → a.block ≡ true
    → paged_create f os a fr first_run l pages
      ≡ (paged_create_finish f os fr first_run l.thread_count l.sched pages >>= λ r. ok (done r))
unfolding paged_create paged_create_thread
paged_create-ready f os a fr first_run l pages made context stack block = ground arith

-- Where the queues have been set up, myallocate gives all that is asked for, the creator has not
-- exited and has less than 375 milliseconds, runs at level 0 and stays there with another thread
-- behind it, queue 0 is a list of distinct nodes without these two and the new one, every page can
-- be protected and the page nodes are numbered, my_pthread_create of the memory manager returns 0
-- with the count as the number of the thread, and the count goes up by one. Whatever the memory of
-- the new node held, the new thread stands in queue 0 behind those that were there, the creator
-- behind it with its context saved, and the thread behind the creator in the running queue is
-- resumed as the current thread. Each page of the creator is closed if no page from the first one
-- up to it is free, and the accounts of the pages stay as they were.
pub paged_create-Started :
    (f : ℕ) (os : Os) (a : Answers) (fr : Fresh) (first_run : Ptr) (l : Library) (pages : Pages)
    (xs : List Ptr) (n m : Node)
    → l.made ≡ true
    → a.context ≡ true
    → a.stack ≡ true
    → a.block ≡ true
    → CreatorRuns l.sched fr xs n m
    → ((j : ℕ) → os.mprotect j ≡ true)
    → Numbered pages.pager.table
    → Ends
        (λ o. (r : PagedResult) × (o ≡ done r) × Started l pages fr xs n m r)
        (paged_create f os a fr first_run l pages)
paged_create-Started f os a fr first_run l pages xs n m made context stack block c works num =
    rw (paged_create-ready f os a fr first_run l pages made context stack block) (
      Ends-bind
        (rw (paged_create_finish-eq f os fr first_run l.thread_count l.sched pages c.given) (
          Ends-bind (enqueue_new-with_new l.sched fr l.thread_count xs n m c) λ s1 e.
            Ends-bind
              (paged_yield-Handed f first_run os s1 pages fr.old_next l.sched.run_queue.head n m
                (xs ++ fr.node ∷ []) c.live c.charge c.more
                (Enqueued-NextUp l.sched fr l.thread_count xs n m s1 c e) works num)
              λ w d. ends (record {
                success = refl;
                number = refl;
                counted = refl;
                switched = (w, refl, d);
              })))
        λ r d. ends (r, refl, d))
