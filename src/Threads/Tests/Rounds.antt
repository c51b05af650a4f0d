-- ===== src/Threads/Tests/Rounds.antt =====
-- One run of the scheduler.
use simple_os_dev_projs.Base.{◌≡◌, refl, none, some, true, [], ◌∷◌, arith, Ends, update}
use simple_os_dev_projs.Threads.State.{exited, running, Node, Sched}
use simple_os_dev_projs.Threads.Scheduler.{after_slice, timer, scheduler, is_exited}
use simple_os_dev_projs.Threads.Scheduler.Slice.{IsCharged}
use simple_os_dev_projs.Threads.Scheduler.Rounds.{Swapped, scheduler-Swapped}
use simple_os_dev_projs.Threads.Exit.{Waits, thread_exit, mark_done, push_retval}
use simple_os_dev_projs.Threads.Exit.Leave.{thread_exit-retires}
use simple_os_dev_projs.Threads.Tests.Data.{node, pair, busy, pair_ones}

-- Thread 1 after 350 milliseconds at level 2.
abbrev old : Node
old = record { status = running; priority = 2; time_ran = 350; thread_id = 1; next = 2 }

old-IsCharged : IsCharged old
old-IsCharged = record { level = omega arith; young = omega arith }

abbrev first : Node
first = record (node 1 0 2) { status = running }

first-IsCharged : IsCharged first
first-IsCharged = record { level = omega arith; young = omega arith }

scheduler-Swapped_example :
    Ends (Swapped true (3 ∷ []) 1 2 first (node 2 0 0)) (scheduler 10 9 true busy)
unfolding after_slice is_exited
scheduler-Swapped_example =
    scheduler-Swapped 10 9 true busy first (node 2 0 0) (3 ∷ []) (omega arith) refl refl
      first-IsCharged (omega arith) (omega arith) refl (omega arith) (pair_ones, refl) (tt, tt)
      (omega arith, tt) (omega arith, tt)

-- The same store with thread 1 gone.
abbrev gone : Node
gone = record first { status = exited }

abbrev leaving : Sched
leaving = record busy { cell = update pair 1 (some gone) }

abbrev waiting_for_one : Waits
waiting_for_one = record {
  joins = record { block = 70; done = 0; thread_waiting_for = 1 } ∷ [];
  retvals = [];
}

thread_exit-retires_example :
    Ends
      (λ r.
        (r.0.save ≡ none)
        × (r.0.resume ≡ 2)
        × (r.0.usec ≡ timer 0)
        × (r.0.sched.cell 1 ≡ none)
        × (r.0.sched.cell 2 ≡ some (record (node 2 0 0) { status = running }))
        × (r.1.joins ≡ mark_done 1 waiting_for_one.joins)
        × (r.1.retvals ≡ push_retval 1 500 waiting_for_one.retvals))
      (thread_exit 10 9 500 busy waiting_for_one)
thread_exit-retires_example =
    thread_exit-retires 10 9 500 busy waiting_for_one first (node 2 0 0) (omega arith) refl
      (omega arith) (omega arith) refl (omega arith)
