-- ===== src/Threads/Exit/Values.antt =====
-- Return values and join blocks between exit and join.
use simple_os_dev_projs.Base.{
  ℕ, ◌≡◌, ◌≢◌, refl, ap, sym, ◌∙◌, Bool, true, false, some, List, [], ◌∷◌, ◌++◌, arith, ok, fault,
  ◌==◌, if◌then◌else◌, Bool-cases, inl, inr,
}
use simple_os_dev_projs.Threads.State.{Ptr, null}
use simple_os_dev_projs.Threads.Exit.{
  JoinVar, Waits, mark_done, push_retval, join_begin, keeps_waiting, unlink_behind, unlink,
  take_retval, join_end,
}

-- The block and the waiting flag of a list of join blocks.
abbrev pub waits_for : ℕ → List JoinVar → Bool
waits_for t [] = false
waits_for t (j ∷ js) = if j.thread_waiting_for == t then true else waits_for t js

-- Only the first block that waits for the thread is told: blocks behind it stay as they are.
mark_done-append :
    (t : ℕ) (js ks : List JoinVar)
    → waits_for t js ≡ true
    → mark_done t (js ++ ks) ≡ mark_done t js ++ ks
unfolding mark_done
mark_done-append t [] ks h = cc
mark_done-append t (j ∷ js) ks h = elim (Bool-cases (j.thread_waiting_for == t)) [
  | inl e ↦ rw e
  | inr e ↦ rw e (ap (λ r. j ∷ r) (mark_done-append t js ks (rw e at h)))
]

-- `b` is the block of none of the list.
abbrev pub Unknown : Ptr → List JoinVar → Type 0
Unknown b [] = Unit
Unknown b (j ∷ js) = (j.block ≢ b) × Unknown b js

pub keeps_waiting-behind :
    (b : Ptr) (js ks : List JoinVar)
    → Unknown b js
    → keeps_waiting b (js ++ ks) ≡ keeps_waiting b ks
unfolding keeps_waiting
keeps_waiting-behind b [] ks h = refl
keeps_waiting-behind b (j ∷ js) ks h = ground (arith, keeps_waiting-behind b js ks h.1)

Unknown-mark_done :
    (t : ℕ) (b : Ptr) (js : List JoinVar) → Unknown b js → Unknown b (mark_done t js)
unfolding mark_done
Unknown-mark_done t b [] h = tt
Unknown-mark_done t b (j ∷ js) h = elim (Bool-cases (j.thread_waiting_for == t)) [
  | inl e ↦ rw e h
  | inr e ↦ rw e (h.0, Unknown-mark_done t b js h.1)
]

-- The effect of an exit on the lists, with the value that the thread leaves.
abbrev pub exit_waits : ℕ → ℕ → Waits → Waits
exit_waits t value w = record {
  joins = mark_done t w.joins;
  retvals = push_retval t value w.retvals;
}

-- If two joins wait for a thread, the one that began first is not told of its exit: the block that
-- comes behind another for the same thread, and is not itself in front of it, keeps its caller
-- waiting just if it did before.
pub keeps_waiting-mark_done :
    (t : ℕ) (b : Ptr) (js ks : List JoinVar)
    → waits_for t js ≡ true
    → Unknown b js
    → keeps_waiting b (mark_done t (js ++ ks)) ≡ keeps_waiting b (js ++ ks)
keeps_waiting-mark_done t b js ks h u =
    ap (keeps_waiting b) (mark_done-append t js ks h)
    ∙ keeps_waiting-behind b (mark_done t js) ks (Unknown-mark_done t b js u)
    ∙ sym (keeps_waiting-behind b js ks u)

unlink_behind-fault :
    (b : Ptr) (js ks : List JoinVar) (k : JoinVar)
    → k.block ≡ b
    → unlink_behind b (js ++ k ∷ ks) ≡ fault
unfolding unlink_behind
unlink_behind-fault b [] ks k e = ground arith
unlink_behind-fault b (j ∷ js) ks k e = ground (arith, unlink_behind-fault b js ks k e)

-- A join that ends while a block that came later, and is not its own, is still in front of its own
-- reads the block that it has just freed, whether a value was asked for or not.
pub join_end-fault :
    (wanted : Bool) (t : ℕ) (j k : JoinVar) (js ks : List JoinVar) (w : Waits)
    → w.joins ≡ j ∷ (js ++ k ∷ ks)
    → j.block ≢ k.block
    → join_end wanted k.block t w ≡ fault
unfolding join_end unlink
join_end-fault wanted t j k js ks w e ne =
    rw e (ground (arith, unlink_behind-fault k.block js ks k refl))

-- Join gets what exit leaves: a join of thread `t` waits, the exit of `t` with a value other than
-- `NULL` ends the waiting, and the rest of the join hands that value over and leaves both lists as
-- they were before.
pub join-exit :
    (b : Ptr) (t value : ℕ) (w : Waits)
    → value ≢ null
    → let begun = join_begin b t w in
      (keeps_waiting b begun.joins ≡ true)
      × (keeps_waiting b (exit_waits t value begun).joins ≡ false)
      × (join_end true b t (exit_waits t value begun) ≡ ok (some value, w))
unfolding join_begin keeps_waiting mark_done join_end unlink push_retval take_retval
join-exit b t value w ne = (ground arith, ground arith, ground arith)
