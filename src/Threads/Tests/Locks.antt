-- ===== src/Threads/Tests/Locks.antt =====
-- A mutex and its callers.
use simple_os_dev_projs.Base.{ℕ, zero, suc, ◌≡◌, refl, ◌<◌, arith, ok, ◌==◌, if◌then◌else◌, update}
use simple_os_dev_projs.Threads.Mutex.{
  Mutex, outside, waiting, holding, System, at_place, enter, acquire, Reach, here, next, start,
  einval, mutex_init, test_and_set, mutex_lock, mutex_unlock,
}
use simple_os_dev_projs.Threads.Mutex.Exclusion.{
  mutual_exclusion, taken_dead, destroy_while_waiting,
}
use simple_os_dev_projs.Threads.Mutex.Lock.{seen, mutex_lock-taken}

abbrev open_mutex : Mutex
open_mutex = record { flag = 0; destroyed = 0 }

abbrev entered : System
entered = at_place (start open_mutex) (start open_mutex).mutex 1 waiting

abbrev held : System
held = at_place entered (test_and_set entered.mutex).1 1 holding

held-Reach : Reach (start open_mutex) held
unfolding mutex_init test_and_set
held-Reach = next (next here (enter 1 refl (omega arith))) (acquire 1 refl (omega arith))

abbrev holder : ℕ
holder = 1

mutual_exclusion_example : holder ≡ holder
mutual_exclusion_example = mutual_exclusion open_mutex held-Reach holder holder refl refl

-- Thread 1 waits, thread 2 does not.
abbrev one_waits : System
one_waits = record { mutex = open_mutex; place = update (λ _. outside) 1 waiting }

destroy_while_waiting_example :
    Reach one_waits (taken_dead one_waits 1 2)
    × ((taken_dead one_waits 1 2).place 1 ≡ holding)
    × ((test_and_set (taken_dead one_waits 1 2).mutex).0 ≡ 1)
    × (mutex_unlock (taken_dead one_waits 1 2).mutex ≡ (einval, (taken_dead one_waits 1 2).mutex))
    × (mutex_init (taken_dead one_waits 1 2).mutex ≡ record { flag = 1; destroyed = 0 })
    × (mutex_unlock (mutex_init (taken_dead one_waits 1 2).mutex)
        ≡ (0, record { flag = 0; destroyed = 0 }))
destroy_while_waiting_example =
    destroy_while_waiting one_waits (taken_dead one_waits 1 2) 1 2 refl refl refl here

-- The holder unlocks during the third yield.
abbrev unlocking : ℕ → Mutex → Mutex
unlocking k m = if k == 2 then open_mutex else m

abbrev shut : Mutex
shut = record { flag = 1; destroyed = 0 }

busy_before : (j : ℕ) → j < 3 → (seen unlocking 0 shut j).flag ≡ 1
busy_before zero h = refl
busy_before (suc zero) h = refl
busy_before (suc (suc zero)) h = refl
busy_before (suc (suc (suc j))) h = absurd (omega arith)

mutex_lock-taken_example :
    mutex_lock unlocking 10 shut ≡ ok (0, record (seen unlocking 0 shut 3) { flag = 1 })
unfolding test_and_set
mutex_lock-taken_example =
    mutex_lock-taken unlocking 10 3 shut (omega arith) (omega arith) busy_before (omega arith)
