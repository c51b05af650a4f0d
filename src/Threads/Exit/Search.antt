-- ===== src/Threads/Exit/Search.antt =====
-- The search of my_pthread_join for a thread that still exists.
use simple_os_dev_projs.Base.{
  ℕ, zero, suc, ◌<◌, ◌≡◌, ◌≢◌, refl, ◌∙◌, Bool, true, false, ◌||◌, some, none, List, [], ◌∷◌, arith,
  ok, ◌==◌, if◌then◌else◌, length, ◌>>=◌,
}
use simple_os_dev_projs.Threads.State.{Ptr, null, Node, Cells, Sched}
use simple_os_dev_projs.Threads.Chain.{Chain, load-some}
use simple_os_dev_projs.Threads.Exit.{is_listed, join_found}

-- Some node of the list belongs to the thread.
abbrev pub has_thread : Cells → ℕ → List Ptr → Bool
has_thread c t [] = false
has_thread c t (x ∷ xs) =
    elim (c x) [ none ↦ false | some n ↦ (t == n.thread_id) ] || has_thread c t xs

is_listed-null : (f : ℕ) (c : Cells) (t p : ℕ) → p ≡ null → is_listed (suc f) c t p ≡ ok false
unfolding is_listed
is_listed-null f c t p e = ground arith

is_listed-node :
    (f : ℕ) (c : Cells) (t p : ℕ) (n : Node)
    → p ≢ null
    → c p ≡ some n
    → is_listed (suc f) c t p ≡ (if t == n.thread_id then ok true else is_listed f c t n.next)
unfolding is_listed
is_listed-node f c t p n ne at = ground (arith, load-some c p ne at)

is_listed-has_thread :
    (f : ℕ) (c : Cells) (t p : ℕ) (xs : List Ptr)
    → Chain c null p xs
    → length xs < f
    → is_listed f c t p ≡ ok (has_thread c t xs)
is_listed-has_thread zero c t p xs h less = absurd (omega arith)
is_listed-has_thread (suc f) c t p [] h less = is_listed-null f c t p h
is_listed-has_thread (suc f) c t p (x ∷ xs) (n, e, ne, at, rest) less =
    is_listed-node f c t p n (rw e ne) (rw e at)
    ∙ ground (arith, is_listed-has_thread f c t n.next xs rest (omega arith))

-- Over four lists that end, each shorter than the rounds that are given, `foundT` is 1 just if the
-- thread has a node in one of the three priority queues or in the running queue.
pub join_found-has_thread :
    (f : ℕ) (s : Sched) (t : ℕ) (xs0 xs1 xs2 ys : List Ptr)
    → Chain s.cell null s.queue0.head xs0
    → Chain s.cell null s.queue1.head xs1
    → Chain s.cell null s.queue2.head xs2
    → Chain s.cell null s.run_queue.head ys
    → length xs0 < f
    → length xs1 < f
    → length xs2 < f
    → length ys < f
    → join_found f s t
      ≡ ok (
          has_thread s.cell t xs0
          || (has_thread s.cell t xs1 || (has_thread s.cell t xs2 || has_thread s.cell t ys)))
unfolding join_found
join_found-has_thread f s t xs0 xs1 xs2 ys h0 h1 h2 hr l0 l1 l2 lr =
    rw
      (
        is_listed-has_thread f s.cell t s.queue0.head xs0 h0 l0,
        is_listed-has_thread f s.cell t s.queue1.head xs1 h1 l1,
        is_listed-has_thread f s.cell t s.queue2.head xs2 h2 l2,
        is_listed-has_thread f s.cell t s.run_queue.head ys hr lr,
      )
      (cases (has_thread s.cell t xs0) (has_thread s.cell t xs1) (has_thread s.cell t xs2)
        (has_thread s.cell t ys))
  where
    cases :
        (a b c d : Bool)
        → ((if a then ok true else ok b) >>= λ b1.
            (if b1 then ok true else ok c) >>= λ b2. if b2 then ok true else ok d)
          ≡ ok (a || (b || (c || d)))
    cases true b c d = refl
    cases false true c d = refl
    cases false false true d = refl
    cases false false false d = refl
