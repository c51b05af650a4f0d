-- ===== src/Threads.antt =====
-- The user-level thread library of Pthreads/my_pthread.c and Pthreads/my_pthread_t.h.
mod Tests
pub mod State
pub mod Chain
pub mod Apart
pub mod Tally
pub mod Load
pub mod Paged
pub mod Scheduler
pub mod Mutex
pub mod Exit
pub mod Create
