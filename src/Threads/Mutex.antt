-- ===== src/Threads/Mutex.antt =====
-- The mutex of Pthreads/my_pthread.c, and threads that use one in any interleaving.
pub mod Exclusion
pub mod Lock
use simple_os_dev_projs.Base.{
  ℕ, zero, suc, ◌+◌, ◌≡◌, ◌≢◌, Run, ok, spent, ◌==◌, if◌then◌else◌, update,
}

-- `my_pthread_mutex_t`.
pub record Mutex : Type 0 where
  pub flag : ℕ
  pub destroyed : ℕ

abbrev pub einval : ℕ
einval = 22

abbrev pub ebusy : ℕ
ebusy = 16

-- my_pthread_mutex_init.
unfoldable pub mutex_init : Mutex → Mutex
mutex_init m = if m.destroyed == 1 then record m { destroyed = 0 } else record m { flag = 0 }

-- `__sync_lock_test_and_set(&mutex -> flag, 1)`: the old flag and the new state.
unfoldable pub test_and_set : Mutex → ℕ × Mutex
test_and_set m = (m.flag, record m { flag = 1 })

-- The loop of my_pthread_mutex_lock. `yielded k` is what other threads do to the mutex during the
-- `k`-th my_pthread_yield.
unfoldable pub lock_loop : (ℕ → Mutex → Mutex) → ℕ → ℕ → Mutex → Run (ℕ × Mutex)
unfolding test_and_set
lock_loop yielded zero k m = spent
lock_loop yielded (suc f) k m =
    let again = lock_loop yielded f (k + 1) (yielded k (test_and_set m).1) in
    if (test_and_set m).0 == 1 then again else ok (0, (test_and_set m).1)

-- my_pthread_mutex_lock: the return value and the mutex.
unfoldable pub mutex_lock : (ℕ → Mutex → Mutex) → ℕ → Mutex → Run (ℕ × Mutex)
mutex_lock yielded f m = if m.destroyed == 1 then ok (einval, m) else lock_loop yielded f 0 m

-- my_pthread_mutex_unlock.
unfoldable pub mutex_unlock : Mutex → ℕ × Mutex
mutex_unlock m = if m.destroyed == 1 then (einval, m) else (0, record m { flag = 0 })

-- my_pthread_mutex_destroy.
unfoldable pub mutex_destroy : Mutex → ℕ × Mutex
mutex_destroy m = if m.flag == 0 then (0, record m { destroyed = 1 }) else (ebusy, m)

-- Where a thread stands: outside, in the loop of my_pthread_mutex_lock, or past it.
pub data Place : Type 0 where
  outside waiting holding : Place

-- One mutex and its threads.
pub record System : Type 0 where
  pub mutex : Mutex
  pub place : ℕ → Place

abbrev pub at_place : System → Mutex → ℕ → Place → System
at_place s m i p = record { mutex = m; place = update s.place i p }

-- What one thread can do between two calls of my_pthread_mutex_init. A thread unlocks a mutex that it
-- holds, and destroys one from outside.
pub data Step (s : System) : System → Type 0 where
  enter :
      (i : ℕ) → s.place i ≡ outside → s.mutex.destroyed ≢ 1 → Step s (at_place s s.mutex i waiting)
  acquire :
      (i : ℕ)
      → s.place i ≡ waiting
      → (test_and_set s.mutex).0 ≢ 1
      → Step s (at_place s (test_and_set s.mutex).1 i holding)
  spin :
      (i : ℕ)
      → s.place i ≡ waiting
      → (test_and_set s.mutex).0 ≡ 1
      → Step s (at_place s (test_and_set s.mutex).1 i waiting)
  unlock : (i : ℕ) → s.place i ≡ holding → Step s (at_place s (mutex_unlock s.mutex).1 i outside)
  destroy : (i : ℕ) → s.place i ≡ outside → Step s (at_place s (mutex_destroy s.mutex).1 i outside)

pub data Reach (s : System) : System → Type 0 where
  here : Reach s s
  next : {t u : System} → Reach s t → Step t u → Reach s u

-- A mutex that my_pthread_mutex_init has set up, and threads that have not called it.
abbrev pub start : Mutex → System
start m = record { mutex = mutex_init m; place = λ _. outside }
