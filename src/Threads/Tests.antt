-- ===== src/Threads/Tests.antt =====
-- Runs of the thread library on small stores.
mod Paging
mod Data
mod Creations
mod Queues
mod Rounds
mod Locks
mod Joins
