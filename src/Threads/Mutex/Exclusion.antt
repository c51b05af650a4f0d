-- ===== src/Threads/Mutex/Exclusion.antt =====
-- Mutual exclusion, and what destroying a mutex does to those who wait for it.
use simple_os_dev_projs.Base.{ℕ, ◌≡◌, refl, arith}
use simple_os_dev_projs.Threads.Mutex.{
  Mutex, einval, mutex_init, test_and_set, mutex_unlock, mutex_destroy, outside, waiting, holding,
  System, at_place, Step, enter, acquire, spin, unlock, destroy, Reach, here, next, start,
}

-- Whoever holds the mutex is alone, and its flag is set.
record Inv (s : System) : Type 0 where
  alone : (i j : ℕ) → s.place i ≡ holding → s.place j ≡ holding → i ≡ j
  set : (i : ℕ) → s.place i ≡ holding → s.mutex.flag ≡ 1

Step-Inv : {s t : System} → Step s t → Inv s → Inv t
unfolding test_and_set mutex_unlock mutex_destroy
Step-Inv (enter i e live) v = record {
  alone = λ a b ea eb. ground (arith, v.alone a b);
  set = λ a ea. ground (arith, v.set a);
}
Step-Inv (acquire i e free) v = record {
  alone = λ a b ea eb. ground (arith, v.set a, v.set b, v.alone a b);
  set = λ a ea. refl;
}
Step-Inv (spin i e busy) v = record {
  alone = λ a b ea eb. ground (arith, v.alone a b);
  set = λ a ea. refl;
}
Step-Inv (unlock i e) v = record {
  alone = λ a b ea eb. ground (arith, v.alone a b);
  set = λ a ea. ground (arith, v.alone a i, v.set a);
}
Step-Inv (destroy i e) v = record {
  alone = λ a b ea eb. ground (arith, v.alone a b);
  set = λ a ea. ground (arith, v.set a);
}

Reach-Inv : (m : Mutex) {s : System} → Reach (start m) s → Inv s
Reach-Inv m here = record { alone = λ i j e. cc; set = λ i e. cc }
Reach-Inv m (next r st) = Step-Inv st (Reach-Inv m r)

-- In every state that threads reach from an initialised mutex, in any interleaving of their calls of
-- lock, unlock and destroy, two threads that hold the mutex are the same thread.
pub mutual_exclusion :
    (m : Mutex) {s : System}
    → Reach (start m) s
    → (i j : ℕ) → s.place i ≡ holding
    → s.place j ≡ holding
    → i ≡ j
mutual_exclusion m r i j = (Reach-Inv m r).alone i j

-- A mutex that is destroyed while its flag is set.
record Lost (s t : System) : Type 0 where
  flag : t.mutex.flag ≡ 1
  destroyed : t.mutex.destroyed ≡ 1
  places : (i : ℕ) → t.place i ≡ holding → s.place i ≡ holding

Step-Lost : {s t u : System} → Step t u → Lost s t → Lost s u
unfolding test_and_set mutex_unlock mutex_destroy
Step-Lost (enter i e live) v = absurd (live v.destroyed)
Step-Lost (acquire i e free) v = absurd (free v.flag)
Step-Lost (spin i e busy) v = record {
  flag = refl;
  destroyed = v.destroyed;
  places = λ a ea. ground (arith, v.places a);
}
Step-Lost (unlock i e) v = record {
  flag = ground (arith, v.flag, v.destroyed);
  destroyed = ground (arith, v.destroyed);
  places = λ a ea. ground (arith, v.places a);
}
Step-Lost (destroy i e) v = record {
  flag = ground (arith, v.flag);
  destroyed = ground (arith, v.flag, v.destroyed);
  places = λ a ea. ground (arith, v.places a);
}

Reach-Lost : {s t : System} → s.mutex.flag ≡ 1 → s.mutex.destroyed ≡ 1 → Reach s t → Lost s t
Reach-Lost f d here = record { flag = f; destroyed = d; places = λ i e. e }
Reach-Lost f d (next r st) = Step-Lost st (Reach-Lost f d r)

-- Thread `j` destroys the mutex, then thread `i` gets it.
abbrev pub taken_dead : System → ℕ → ℕ → System
taken_dead s i j =
    let d = at_place s (mutex_destroy s.mutex).1 j outside in
    at_place d (test_and_set d.mutex).1 i holding

-- If a mutex is destroyed while thread `i` waits for it and its flag is clear, thread `i` can still
-- get it. In every state that calls of lock, unlock and destroy lead to from there, its holder's unlock
-- included, the flag is set, so the loop of my_pthread_mutex_lock does not pass, and unlock answers
-- EINVAL. A call of my_pthread_mutex_init makes the mutex whole, with its flag still set, so that an
-- unlock clears it.
pub destroy_while_waiting :
    (s u : System) (i j : ℕ)
    → s.place i ≡ waiting
    → s.place j ≡ outside
    → s.mutex.flag ≡ 0
    → Reach (taken_dead s i j) u
    → Reach s (taken_dead s i j)
      × ((taken_dead s i j).place i ≡ holding)
      × ((test_and_set u.mutex).0 ≡ 1)
      × (mutex_unlock u.mutex ≡ (einval, u.mutex))
      × (mutex_init u.mutex ≡ record { flag = 1; destroyed = 0 })
      × (mutex_unlock (mutex_init u.mutex) ≡ (0, record { flag = 0; destroyed = 0 }))
unfolding test_and_set mutex_destroy mutex_unlock mutex_init
destroy_while_waiting s u i j wait out clear r =
    let d = at_place s (mutex_destroy s.mutex).1 j outside in
    let l = Reach-Lost refl (ground (arith, clear)) r in
    (
      next (next here (destroy j out)) (acquire i (ground arith) (ground arith)),
      ground arith,
      l.flag,
      ground (arith, l.destroyed),
      ground (arith, l.flag, l.destroyed),
      ground (arith, l.flag, l.destroyed),
    )
