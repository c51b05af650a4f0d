-- ===== src/Threads/Tests/Queues.antt =====
-- Queues that are tallied, moved and extended.
use simple_os_dev_projs.Base.{◌≡◌, refl, inl, [], ◌∷◌, some, arith, ok, spent, Ends, update}
use simple_os_dev_projs.Threads.Paged.{paged_tally}
use simple_os_dev_projs.Threads.Paged.Filled.{Filled, paged_tally-Filled}
use simple_os_dev_projs.Threads.State.{null, Sched}
use simple_os_dev_projs.Threads.Chain.{Chain}
use simple_os_dev_projs.Threads.Tally.{tally, Picks}
use simple_os_dev_projs.Threads.Tally.Totals.{Queued, Tallied, tally-Tallied, tally-hangs}
use simple_os_dev_projs.Threads.Load.{Moving, create_running_queue}
use simple_os_dev_projs.Threads.Load.Create.{Separate, Created, create_running_queue-Created}
use simple_os_dev_projs.Threads.Tests.Data.{
  node, list_of, four, resting, four_zeros, four_ones, four_twos, four-Distinct, crowded,
  seven_zeros, seven_ones,
}

resting-Queued : Queued 10 resting (1 ∷ 2 ∷ []) (3 ∷ []) (4 ∷ [])
resting-Queued = record {
  chain0 = four_zeros;
  chain1 = four_ones;
  chain2 = four_twos;
  rounds0 = omega arith;
  rounds1 = omega arith;
  rounds2 = omega arith;
}

tally-Tallied_example : Ends (Tallied 2 1 1) (tally 10 resting)
tally-Tallied_example =
    tally-Tallied 10 resting (1 ∷ 2 ∷ []) (3 ∷ []) (4 ∷ []) resting-Queued 1 1 refl
      (inl (omega arith))

crowded-Queued : Queued 10 crowded (1 ∷ []) (11 ∷ 12 ∷ 13 ∷ 14 ∷ 15 ∷ 16 ∷ []) []
crowded-Queued = record {
  chain0 = seven_zeros;
  chain1 = seven_ones;
  chain2 = refl;
  rounds0 = omega arith;
  rounds1 = omega arith;
  rounds2 = omega arith;
}

tally-hangs_example : tally 10 crowded ≡ spent
tally-hangs_example =
    tally-hangs 10 crowded (1 ∷ []) (11 ∷ 12 ∷ 13 ∷ 14 ∷ 15 ∷ 16 ∷ []) [] crowded-Queued 0 refl
      (omega arith) (omega arith)

abbrev at_start : Moving
at_start = record { cell = four; run_queue = list_of 0 0; queue = list_of 1 2 }

resting-Separate : Separate four resting (1 ∷ 2 ∷ []) (3 ∷ []) (4 ∷ [])
resting-Separate = record {
  holds0 = (four_zeros, refl);
  holds1 = (four_ones, refl);
  holds2 = (four_twos, refl);
  distinct0 = four-Distinct;
  distinct1 = (tt, tt);
  distinct2 = (tt, tt);
  apart01 = ((omega arith, tt), ((omega arith, tt), tt));
  apart02 = ((omega arith, tt), ((omega arith, tt), tt));
  apart12 = ((omega arith, tt), tt);
}

abbrev picked : Picks
picked = record { p0 = 2; p1 = 1; p2 = 1; count = 200 }

resting-tally : tally 10 resting ≡ ok picked
unfolding tally
resting-tally = refl

create_running_queue-Created_example :
    Ends (Created resting (1 ∷ 2 ∷ []) (3 ∷ []) (4 ∷ []) [] [] []) (create_running_queue 10 resting)
create_running_queue-Created_example =
    create_running_queue-Created 10 resting picked (1 ∷ 2 ∷ []) (3 ∷ []) (4 ∷ []) [] [] []
      resting-Separate refl resting-tally refl refl refl

-- A fifth thread, not yet in a queue.
abbrev joined : Sched
joined = record resting { cell = update four 5 (some (node 5 0 0)) }

joined_zeros : Chain joined.cell null 1 (1 ∷ 2 ∷ [])
joined_zeros = (node 1 0 2, refl, omega arith, refl, (node 2 0 0, refl, omega arith, refl, refl))

paged_tally-Filled_example : Ends (Filled 1 6 0) (paged_tally 10 crowded)
paged_tally-Filled_example =
    paged_tally-Filled 10 crowded (1 ∷ []) (11 ∷ 12 ∷ 13 ∷ 14 ∷ 15 ∷ 16 ∷ []) [] crowded-Queued
