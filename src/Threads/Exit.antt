-- ===== src/Threads/Exit.antt =====
-- my_pthread_exit and my_pthread_join of Pthreads/my_pthread.c. A call of join is modelled in three
-- parts, since other threads run between them: up to the search for the thread, one test of the
-- waiting loop, and what follows the loop.
pub mod Values
pub mod Leave
pub mod Search
use simple_os_dev_projs.Base.{
  ℕ, zero, suc, Bool, true, false, Option, none, some, List, [], ◌∷◌, Run, ok, fault, spent, ◌>>=◌,
  ◌==◌, if◌then◌else◌, update,
}
use simple_os_dev_projs.Threads.State.{Ptr, null, Status, Node, Cells, Sched, load}
use simple_os_dev_projs.Threads.Scheduler.{Switch, yield_now}

-- `join_var`, with the address of the block that holds it.
pub record JoinVar : Type 0 where
  pub block : Ptr
  pub done : ℕ
  pub thread_waiting_for : ℕ

-- `retval_elem`. A value is a pointer, 0 if it is `NULL`.
pub record Retval : Type 0 where
  pub thread_id : ℕ
  pub retval : ℕ

-- `join_LL` and `retval_LL`.
pub record Waits : Type 0 where
  pub joins : List JoinVar
  pub retvals : List Retval

-- Lines 467 to 475: the first block that waits for the thread, and no other.
unfoldable pub mark_done : ℕ → List JoinVar → List JoinVar
mark_done t [] = []
mark_done t (j ∷ js) =
    if j.thread_waiting_for == t then record j { done = 1 } ∷ js else j ∷ mark_done t js

-- Lines 478 to 493.
unfoldable pub push_retval : ℕ → ℕ → List Retval → List Retval
push_retval t value rs = if value == null then rs else record { thread_id = t; retval = value } ∷ rs

-- my_pthread_exit of the thread at the head of the running queue.
unfoldable pub thread_exit : ℕ → Ptr → ℕ → Sched → Waits → Run (Switch × Waits)
thread_exit f fresh value s w = do
  n ← load s.cell s.run_queue.head
  r ← yield_now f fresh (record s {
    cell = update s.cell s.run_queue.head (some (record n { status = Status.exited }));
  })
  ok (
    r,
    record {
      joins = mark_done n.thread_id w.joins;
      retvals = push_retval n.thread_id value w.retvals;
    },
  )

-- Lines 503 to 519.
unfoldable pub join_begin : Ptr → ℕ → Waits → Waits
join_begin block thread w = record w {
  joins = record { block = block; done = 0; thread_waiting_for = thread } ∷ w.joins;
}

-- One of the four loops of lines 523 to 554.
unfoldable pub is_listed : ℕ → Cells → ℕ → Ptr → Run Bool
is_listed zero c thread p = spent
is_listed (suc f) c thread p = if p == null then ok false else do
  n ← load c p
  let rest = is_listed f c thread n.next
  if thread == n.thread_id then ok true else rest

-- `foundT`: a list is searched only if the thread is not in those before it.
unfoldable pub join_found : ℕ → Sched → ℕ → Run Bool
join_found f s thread = do
  b0 ← is_listed f s.cell thread s.queue0.head
  b1 ← (if b0 then ok true else is_listed f s.cell thread s.queue1.head)
  b2 ← (if b1 then ok true else is_listed f s.cell thread s.queue2.head)
  if b2 then ok true else is_listed f s.cell thread s.run_queue.head

-- `cond_var -> done == 0`: the caller yields once more.
unfoldable pub keeps_waiting : Ptr → List JoinVar → Bool
keeps_waiting b [] = false
keeps_waiting b (j ∷ js) = if j.block == b then j.done == 0 else keeps_waiting b js

-- Lines 575 to 583. After `free(ptr)` the loop reads `ptr -> next`.
unfoldable pub unlink_behind : Ptr → List JoinVar → Run (List JoinVar)
unlink_behind b [] = ok []
unlink_behind b (j ∷ js) = if j.block == b then fault else (do r ← unlink_behind b js; ok (j ∷ r))

-- Lines 567 to 584.
unfoldable pub unlink : Ptr → List JoinVar → Run (List JoinVar)
unfolding unlink_behind
unlink b [] = ok []
unlink b (j ∷ js) = if j.block == b then ok js else (do r ← unlink_behind b js; ok (j ∷ r))

-- Lines 587 to 608, with the value stored if there is one.
unfoldable pub take_retval : ℕ → List Retval → Option ℕ × List Retval
take_retval t [] = (none, [])
take_retval t (r ∷ rs) =
    if r.thread_id == t
    then (some r.retval, rs)
    else (let (v, rest) = take_retval t rs in (v, r ∷ rest))

-- What follows the waiting loop: `wanted` says that `value_ptr` is not `NULL`.
unfoldable pub join_end : Bool → Ptr → ℕ → Waits → Run (Option ℕ × Waits)
join_end wanted block thread w = do
  js ← unlink block w.joins
  ok (
      if wanted
      then (let (v, rs) = take_retval thread w.retvals in (v, record { joins = js; retvals = rs }))
      else (none, record w { joins = js }))
