-- ===== src/Threads/Paged/Leave.antt =====
-- my_pthread_exit and the end of my_pthread_join of Memory_Manager/my_pthread.c. They are those of
-- Pthreads/my_pthread.c, but that the exiting thread switches with this copy's scheduler, that the
-- blocks come from myallocate, and that a block given to mydeallocate can still be read. Whether
-- myallocate gives a block is a parameter; the library's region is not part of the threads' state.
pub mod Gone
pub mod Joined
use simple_os_dev_projs.Base.{
  ℕ, Bool, true, false, Option, none, some, List, [], ◌∷◌, Run, ok, fault, ◌>>=◌, ◌==◌,
  if◌then◌else◌, update,
}
use simple_os_dev_projs.Threads.State.{Ptr, null, Status, load, Sched}
use simple_os_dev_projs.Threads.Exit.{JoinVar, Retval, Waits, mark_done, push_retval, take_retval}
use simple_os_dev_projs.Threads.Paged.Switch.{Pages, PagedSwitch, paged_yield}
use simple_os_dev_projs.Memory.Pages.{Os}

-- Lines 495 to 510: without a `retval_elem` or a `retval_block` the code writes through `NULL`.
unfoldable pub keep_retval :
    (gets_elem gets_block : Bool) → (thread value : ℕ) → List Retval → Run (List Retval)
keep_retval gets_elem gets_block thread value rs =
    if value == null
    then ok rs
    else if gets_elem
    then (if gets_block then ok (push_retval thread value rs) else fault)
    else fault

-- my_pthread_exit of the thread at the head of the running queue.
unfoldable pub paged_exit :
    ℕ
    → (fresh : Ptr) → Os
    → (gets_elem gets_block : Bool) → (value : ℕ) → Sched
    → Pages
    → Waits
    → Run (PagedSwitch × Waits)
paged_exit f fresh os gets_elem gets_block value s m w = do
  n ← load s.cell s.run_queue.head
  rs ← keep_retval gets_elem gets_block n.thread_id value w.retvals
  r ←
      paged_yield f fresh os
        (record s {
          cell = update s.cell s.run_queue.head (some (record n { status = Status.exited }));
        })
        m
  ok (r, record { joins = mark_done n.thread_id w.joins; retvals = rs })

-- Lines 584 to 601: a block is in the list at one place.
unfoldable pub paged_unlink : Ptr → List JoinVar → List JoinVar
paged_unlink b [] = []
paged_unlink b (j ∷ js) = if j.block == b then js else j ∷ paged_unlink b js

-- Lines 583 to 627, after the waiting loop: `wanted` says that `value_ptr` is not `NULL`.
unfoldable pub paged_join_end : (wanted : Bool) → Ptr → ℕ → Waits → Option ℕ × Waits
paged_join_end wanted block thread w =
    let js = paged_unlink block w.joins in
    if wanted
    then (let (v, rs) = take_retval thread w.retvals in (v, record { joins = js; retvals = rs }))
    else (none, record w { joins = js })
