-- ===== src/Threads/Tests/Data.antt =====
-- Small stores of threads.
use simple_os_dev_projs.Base.{ℕ, refl, none, some, [], ◌∷◌, arith, ◌==◌, if◌then◌else◌}
use simple_os_dev_projs.Threads.State.{Ptr, null, ready, running, Node, Queue, Cells, Sched}
use simple_os_dev_projs.Threads.Chain.{Chain, Distinct}

abbrev pub node : ℕ → ℕ → Ptr → Node
node t p nxt = record { status = ready; priority = p; time_ran = 0; thread_id = t; next = nxt }

abbrev pub list_of : Ptr → Ptr → Queue
list_of h t = record { head = h; tail = t }

-- Two threads of queue 0, one of queue 1 and one of queue 2; nothing runs.
abbrev pub four : Cells
four p =
    if p == 1
    then some (node 1 0 2)
    else if p == 2
    then some (node 2 0 0)
    else if p == 3
    then some (node 3 1 0)
    else if p == 4
    then some (node 4 2 0)
    else none

abbrev pub resting : Sched
resting = record {
  cell = four;
  queue0 = list_of 1 2;
  queue1 = list_of 3 3;
  queue2 = list_of 4 4;
  run_queue = list_of 0 0;
  empty_running_queue = 0;
}

pub four_zeros : Chain four null 1 (1 ∷ 2 ∷ [])
four_zeros = (node 1 0 2, refl, omega arith, refl, (node 2 0 0, refl, omega arith, refl, refl))

pub four_ones : Chain four null 3 (3 ∷ [])
four_ones = (node 3 1 0, refl, omega arith, refl, refl)

pub four_twos : Chain four null 4 (4 ∷ [])
four_twos = (node 4 2 0, refl, omega arith, refl, refl)

pub four-Distinct : Distinct (1 ∷ 2 ∷ [])
four-Distinct = ((omega arith, tt), (tt, tt))

-- One thread of queue 0 and six of queue 1.
abbrev pub seven : Cells
seven p =
    if p == 1
    then some (node 1 0 0)
    else if p == 11
    then some (node 11 1 12)
    else if p == 12
    then some (node 12 1 13)
    else if p == 13
    then some (node 13 1 14)
    else if p == 14
    then some (node 14 1 15)
    else if p == 15
    then some (node 15 1 16)
    else if p == 16
    then some (node 16 1 0)
    else none

abbrev pub crowded : Sched
crowded = record {
  cell = seven;
  queue0 = list_of 1 1;
  queue1 = list_of 11 16;
  queue2 = list_of 0 0;
  run_queue = list_of 0 0;
  empty_running_queue = 0;
}

pub seven_zeros : Chain seven null 1 (1 ∷ [])
seven_zeros = (node 1 0 0, refl, omega arith, refl, refl)

pub seven_ones : Chain seven null 11 (11 ∷ 12 ∷ 13 ∷ 14 ∷ 15 ∷ 16 ∷ [])
seven_ones = (
  node 11 1 12,
  refl,
  omega arith,
  refl,
  (
    node 12 1 13,
    refl,
    omega arith,
    refl,
    (
      node 13 1 14,
      refl,
      omega arith,
      refl,
      (
        node 14 1 15,
        refl,
        omega arith,
        refl,
        (node 15 1 16, refl, omega arith, refl, (node 16 1 0, refl, omega arith, refl, refl)),
      ),
    ),
  ),
)

-- Thread 1 runs, thread 2 is behind it, thread 3 waits in queue 1.
abbrev pub pair : Cells
pair p =
    if p == 1
    then some (record (node 1 0 2) { status = running })
    else if p == 2
    then some (node 2 0 0)
    else if p == 3
    then some (node 3 1 0)
    else none

abbrev pub busy : Sched
busy = record {
  cell = pair;
  queue0 = list_of 0 0;
  queue1 = list_of 3 3;
  queue2 = list_of 0 0;
  run_queue = list_of 1 2;
  empty_running_queue = 0;
}

pub pair_ones : Chain pair null 3 (3 ∷ [])
pair_ones = (node 3 1 0, refl, omega arith, refl, refl)

pub pair_running : Chain pair null 1 (1 ∷ 2 ∷ [])
pair_running = (
  record (node 1 0 2) { status = running },
  refl,
  omega arith,
  refl,
  (node 2 0 0, refl, omega arith, refl, refl),
)
