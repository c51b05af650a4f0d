-- ===== src/Threads/Tests/Creations.antt =====
-- A first creation that gets no stack for its thread, and a creation by a running thread.
use simple_os_dev_projs.Base.{refl, inl, inr, true, false, some, Ends, arith, ◌≡◌, [], ◌∷◌}
use simple_os_dev_projs.Threads.Create.{Fresh}
use simple_os_dev_projs.Threads.Create.Begin.{Heads, Answers, Library, create}
use simple_os_dev_projs.Threads.Create.Begin.Refuse.{Refusal, create-refuses}
use simple_os_dev_projs.Threads.Create.Begin.Switched.{CreatorRuns, Switched}
use simple_os_dev_projs.Threads.State.{running, Node, Sched}
use simple_os_dev_projs.Threads.Scheduler.{after_slice, is_exited}
use simple_os_dev_projs.Threads.Paged.Start.{PagedResult, done, paged_create}
use simple_os_dev_projs.Threads.Paged.Start.Handed.{Started, paged_create-Started}
use simple_os_dev_projs.Threads.Tests.Paging.{willing, shared}
use simple_os_dev_projs.Threads.Tests.Data.{node, list_of, resting, busy, pair_ones}

abbrev clear_heads : Heads
clear_heads = record { level0 = list_of 0 0; level1 = list_of 0 0; level2 = list_of 0 0 }

abbrev no_stack : Answers
no_stack = record {
  link_stack = true;
  heads = some clear_heads;
  count_mutex = true;
  context = true;
  stack = false;
  block = true;
}

abbrev node_nine : Fresh
node_nine = record { node = 9; old_next = 123 }

abbrev untouched : Library
untouched = record { made = false; thread_count = 0; sched = resting }

create-refuses_example :
    Ends (Refusal (some clear_heads) node_nine untouched) (create 10 no_stack node_nine 0 untouched)
create-refuses_example =
    create-refuses 10 no_stack node_nine 0 untouched refl refl refl (inr (inl refl))

abbrev all_given : Answers
all_given = record no_stack { stack = true }

-- Thread 1 runs with 2 behind it, and 3 waits in queue 0.
abbrev at_work : Sched
at_work = record busy { queue0 = list_of 3 3; queue1 = list_of 0 0 }

abbrev working : Library
working = record { made = true; thread_count = 4; sched = at_work }

abbrev worker : Node
worker = record (node 1 0 2) { status = running }

creator_runs : CreatorRuns at_work node_nine (3 ∷ []) worker (node 2 0 0)
unfolding after_slice is_exited
creator_runs = record {
  given = omega arith;
  queued = (pair_ones, refl);
  distinct = (tt, tt);
  new_outside = (omega arith, tt);
  runs = omega arith;
  creator = refl;
  live = refl;
  charge = record { level = omega arith; young = omega arith };
  stays = refl;
  more = omega arith;
  next_apart = omega arith;
  next = refl;
  some_left = omega arith;
  creator_outside = (omega arith, tt);
  next_outside = (omega arith, tt);
  new_apart = (omega arith, omega arith);
}

paged_create-Started_example :
    Ends
      (λ o.
        (r : PagedResult) × (o ≡ done r)
        × Started working shared node_nine (3 ∷ []) worker (node 2 0 0) r)
      (paged_create 10 willing all_given node_nine 0 working shared)
paged_create-Started_example =
    paged_create-Started 10 willing all_given node_nine 0 working shared (3 ∷ []) worker
      (node 2 0 0) refl refl refl refl creator_runs (λ j. refl) (λ j l. refl)
