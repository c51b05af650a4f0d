-- ===== src/Threads/Paged/Leave/Joined.antt =====
-- The join of a thread of the memory manager that ends behind joins that came later.
use simple_os_dev_projs.Base.{ℕ, ◌≡◌, ◌≢◌, refl, true, false, some, List, [], ◌∷◌, ◌++◌, arith}
use simple_os_dev_projs.Threads.State.{Ptr, null}
use simple_os_dev_projs.Threads.Exit.{
  JoinVar, Retval, mark_done, push_retval, keeps_waiting, take_retval,
}
use simple_os_dev_projs.Threads.Exit.Values.{waits_for, Unknown, keeps_waiting-behind, exit_waits}
use simple_os_dev_projs.Threads.Paged.Leave.{paged_unlink, paged_join_end}

-- The block of a call of join that has begun, or been told.
abbrev pub block_of : (b : Ptr) (thread done : ℕ) → JoinVar
block_of b thread done = record { block = b; done = done; thread_waiting_for = thread }

mark_done-first :
    (t : ℕ) (b : Ptr) (js ks : List JoinVar)
    → waits_for t js ≡ false
    → mark_done t (js ++ block_of b t 0 ∷ ks) ≡ js ++ block_of b t 1 ∷ ks
unfolding mark_done
mark_done-first t b [] ks h = ground arith
mark_done-first t b (j ∷ js) ks h = ground (arith, mark_done-first t b js ks)

paged_unlink-behind :
    (b : Ptr) (thread done : ℕ) (js ks : List JoinVar)
    → Unknown b js
    → paged_unlink b (js ++ block_of b thread done ∷ ks) ≡ js ++ ks
unfolding paged_unlink
paged_unlink-behind b thread done [] ks h = ground arith
paged_unlink-behind b thread done (j ∷ js) ks h =
    ground (arith, paged_unlink-behind b thread done js ks h.1)

keeps_waiting-told :
    (b : Ptr) (t : ℕ) (ks : List JoinVar) → keeps_waiting b (block_of b t 1 ∷ ks) ≡ false
unfolding keeps_waiting
keeps_waiting-told b t ks = ground arith

take_retval-pushed :
    (t value : ℕ) (rs : List Retval)
    → value ≢ null
    → take_retval t (push_retval t value rs) ≡ (some value, rs)
unfolding take_retval push_retval
take_retval-pushed t value rs ne = ground arith

-- In the memory manager's copy a join ends wherever its block stands: where no block in front of it
-- waits for the same thread or is its own, the exit of thread `t` with a value other than `NULL`
-- ends the waiting, and the rest of the join hands that value over, takes its block out from
-- between the others and leaves the list of values as it was before the exit.
pub paged_join-exit :
    (b : Ptr) (t value : ℕ) (js ks : List JoinVar) (rs : List Retval)
    → value ≢ null
    → waits_for t js ≡ false
    → Unknown b js
    → let left = exit_waits t value (record { joins = js ++ block_of b t 0 ∷ ks; retvals = rs }) in
      (keeps_waiting b left.joins ≡ false)
      × (paged_join_end true b t left ≡ (some value, record { joins = js ++ ks; retvals = rs }))
unfolding paged_join_end
paged_join-exit b t value js ks rs ne first unknown =
    rw
      (
        mark_done-first t b js ks first,
        keeps_waiting-behind b js (block_of b t 1 ∷ ks) unknown,
        keeps_waiting-told b t ks,
        paged_unlink-behind b t 1 js ks unknown,
        take_retval-pushed t value rs ne,
      )
      (refl, refl)
