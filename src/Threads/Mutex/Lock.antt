-- ===== src/Threads/Mutex/Lock.antt =====
-- What a call of my_pthread_mutex_lock, unlock or destroy returns.
use simple_os_dev_projs.Base.{ℕ, zero, suc, ◌+◌, ◌<◌, ◌≡◌, ◌≢◌, refl, arith, ok}
use simple_os_dev_projs.Threads.Mutex.{
  Mutex, einval, ebusy, lock_loop, mutex_lock, mutex_unlock, mutex_destroy, mutex_init,
}

-- The mutex as the loop finds it after `n` more yields, the first of them the `k`-th.
abbrev pub seen : (ℕ → Mutex → Mutex) → ℕ → Mutex → ℕ → Mutex
seen yielded k m zero = m
seen yielded k m (suc n) = seen yielded (k + 1) (yielded k (record m { flag = 1 })) n

lock_loop-taken :
    (yielded : (ℕ → Mutex → Mutex)) (f k n : ℕ) (m : Mutex)
    → n < f
    → ((j : ℕ) → j < n → (seen yielded k m j).flag ≡ 1)
    → (seen yielded k m n).flag ≢ 1
    → lock_loop yielded f k m ≡ ok (0, record (seen yielded k m n) { flag = 1 })
unfolding lock_loop
lock_loop-taken yielded zero k n m h busy free = absurd (omega arith)
lock_loop-taken yielded (suc f) k zero m h busy free = ground arith
lock_loop-taken yielded (suc f) k (suc n) m h busy free =
    let first : m.flag ≡ 1 = busy 0 (omega arith) in
    ground (
      arith,
      lock_loop-taken yielded f (k + 1) n (yielded k (record m { flag = 1 })) (omega arith)
          (λ j lt. busy (suc j) (omega arith)) free,
    )

-- Of a mutex that is not destroyed, my_pthread_mutex_lock yields while it finds the flag set, and
-- returns 0 with the flag set again as soon as another thread has left it clear; it then has kept
-- the rest of what that thread left. One round more than there are yields is enough.
pub mutex_lock-taken :
    (yielded : (ℕ → Mutex → Mutex)) (f n : ℕ) (m : Mutex)
    → m.destroyed ≢ 1
    → n < f
    → ((j : ℕ) → j < n → (seen yielded 0 m j).flag ≡ 1)
    → (seen yielded 0 m n).flag ≢ 1
    → mutex_lock yielded f m ≡ ok (0, record (seen yielded 0 m n) { flag = 1 })
unfolding mutex_lock
mutex_lock-taken yielded f n m live h busy free =
    ground (arith, lock_loop-taken yielded f 0 n m h busy free)

-- From a mutex that is clear and not destroyed: lock takes it, a destroy of the taken mutex
-- answers EBUSY, unlock clears it, a destroy then succeeds and makes lock and unlock fail with
-- EINVAL, and an init brings it back to use.
pub mutex_life :
    (yielded : (ℕ → Mutex → Mutex)) (f : ℕ) (m : Mutex)
    → m.destroyed ≡ 0
    → m.flag ≡ 0
    → 0 < f
    → let held : Mutex = record { flag = 1; destroyed = 0 } in
      let clear : Mutex = record { flag = 0; destroyed = 0 } in
      let dead : Mutex = record { flag = 0; destroyed = 1 } in
      (mutex_lock yielded f m ≡ ok (0, held))
      × (mutex_destroy held ≡ (ebusy, held))
      × (mutex_unlock held ≡ (0, clear))
      × (mutex_destroy clear ≡ (0, dead))
      × (mutex_lock yielded f dead ≡ ok (einval, dead))
      × (mutex_unlock dead ≡ (einval, dead))
      × (mutex_init dead ≡ clear)
unfolding mutex_lock mutex_unlock mutex_destroy mutex_init
mutex_life yielded f m live clear h = (
  ground (arith, lock_loop-taken yielded f 0 0 m h (λ j lt. absurd (omega arith)) (omega arith)),
  refl,
  refl,
  refl,
  refl,
  refl,
  refl,
)
