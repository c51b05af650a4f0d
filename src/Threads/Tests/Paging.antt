-- ===== src/Threads/Tests/Paging.antt =====
-- Runs of the memory manager's scheduler and of its exit.
use simple_os_dev_projs.Base.{◌≡◌, refl, none, true, [], ◌∷◌, arith, Ends, ◌==◌, if◌then◌else◌}
use simple_os_dev_projs.Threads.State.{running, Node}
use simple_os_dev_projs.Threads.Scheduler.{after_slice, is_exited}
use simple_os_dev_projs.Threads.Scheduler.Slice.{IsCharged}
use simple_os_dev_projs.Threads.Scheduler.Rounds.{Swapped}
use simple_os_dev_projs.Threads.Paged.Switch.{Pages, paged_scheduler}
use simple_os_dev_projs.Threads.Paged.Released.{HandedOver, Accounts, paged_scheduler-HandedOver}
use simple_os_dev_projs.Threads.Exit.{Waits, mark_done, push_retval}
use simple_os_dev_projs.Threads.Paged.Leave.{paged_exit}
use simple_os_dev_projs.Threads.Paged.Leave.Gone.{paged_exit-Released}
use simple_os_dev_projs.Memory.Pages.{Os, Pager, home}
use simple_os_dev_projs.Threads.Tests.Data.{node, busy, pair_ones}

abbrev pub willing : Os
willing = record { mprotect = λ _. true; lseek = λ _. true; read = λ _. true; write = λ _. true }

-- Page 0 is thread 1's and page 1 thread 2's, both open.
abbrev two_pages : Pager
two_pages = record {
  table = λ i. record {
    thread_id = if i == 0 then 1 else if i == 1 then 2 else 0;
    offset_p = i;
    ret_addr = home;
    reference_bit = 0;
  };
  cursor = 0;
  frames = λ i b. 7;
  swap_file = λ i b. 0;
  is_open = λ i. true;
}

abbrev pub shared : Pages
shared = record { pager = two_pages; pages_left = 100; counts = λ t. 5; curr_thread = 1 }

abbrev front : Node
front = record (node 1 0 2) { status = running }

front-IsCharged : IsCharged front
front-IsCharged = record { level = omega arith; young = omega arith }

paged_scheduler-HandedOver_example :
    Ends
      (λ w.
        Swapped true (3 ∷ []) 1 2 front (node 2 0 0) w.switch
        × HandedOver shared 1 0 2 w.pages
        × (w.pages.pages_left ≡ 100)
        × (w.pages.counts ≡ shared.counts))
      (paged_scheduler 10 9 true willing busy shared)
unfolding after_slice is_exited
paged_scheduler-HandedOver_example =
    paged_scheduler-HandedOver 10 9 true willing busy shared front (node 2 0 0) (3 ∷ [])
      (omega arith) refl refl front-IsCharged (omega arith) (omega arith) refl (omega arith)
      (pair_ones, refl) (tt, tt) (omega arith, tt) (omega arith, tt) (λ j. refl) (λ j l. refl)

-- Thread 2 waits for thread 1.
abbrev one_join : Waits
one_join = record {
  joins = record { block = 50; done = 0; thread_waiting_for = 1 } ∷ [];
  retvals = [];
}

paged_exit-Released_example :
    Ends
      (λ r.
        (r.0.switch.save ≡ none)
        × (r.0.switch.resume ≡ 2)
        × (r.0.switch.sched.cell 1 ≡ none)
        × HandedOver shared 1 1 2 r.0.pages
        × Accounts shared 1 r.0.pages
        × (r.1.joins ≡ mark_done 1 one_join.joins)
        × (r.1.retvals ≡ push_retval 1 77 []))
      (paged_exit 10 9 willing true true 77 busy shared one_join)
paged_exit-Released_example =
    paged_exit-Released 10 9 willing 77 busy shared one_join front (node 2 0 0) (omega arith) refl
      (omega arith) (omega arith) refl (omega arith) (λ j. refl) (λ j l. refl)
