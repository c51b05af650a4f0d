-- ===== src/Threads/Create/Begin.antt =====
-- The whole of my_pthread_create of Pthreads/my_pthread.c: what the first call sets up, the machine
-- context of the thread and its stack, lines 15 to 80, and then the thread's block. What `malloc`
-- answers is a parameter; getcontext and makecontext are the system's.
pub mod Refuse
pub mod Switched
use simple_os_dev_projs.Base.{
  ℕ, Bool, true, false, Option, none, some, Run, ok, fault, exited, ◌>>=◌, if◌then◌else◌,
}
use simple_os_dev_projs.Threads.State.{Ptr, Queue, Sched}
use simple_os_dev_projs.Threads.Create.{Fresh, Result, create_finish}

-- The heads and tails that the memory of a new `mpq` holds: the code does not set them.
pub record Heads : Type 0 where
  pub level0 : Queue
  pub level1 : Queue
  pub level2 : Queue

-- What `malloc` gives, in the order of the calls: the stack of `return_link`, the `mpq`, the mutex of
-- the count, and the thread's context, stack and block.
pub record Answers : Type 0 where
  pub link_stack : Bool
  pub heads : Option Heads
  pub count_mutex : Bool
  pub context : Bool
  pub stack : Bool
  pub block : Bool

-- The globals. `made` says that `priority_Queue` is not `NULL`.
pub record Library : Type 0 where
  pub made : Bool
  pub thread_count : ℕ
  pub sched : Sched

-- How a call returns: with EAGAIN before the block is there, or as create_finish does.
pub data Outcome : Type 0 where
  refused : Library → Outcome
  finished : Result → Outcome

-- Lines 33 to 44 where `malloc` gives the memory of the `mpq`.
unfoldable pub opened : Heads → Library → Library
opened h l = record {
  made = true;
  thread_count = 2;
  sched = record l.sched { queue0 = h.level0; queue1 = h.level1; queue2 = h.level2 };
}

-- Lines 48 to 119: the thread itself.
unfoldable pub create_thread : ℕ → Answers → Fresh → Ptr → Library → Run Outcome
create_thread f a m first_run l =
    let rest = (do r ← create_finish f m first_run l.thread_count l.sched; ok (finished r)) in
    if a.context
    then (if a.stack then (if a.block then rest else fault) else ok (refused l))
    else ok (refused l)

-- The first call with the `mpq` that it was given, from line 35 on.
unfoldable pub open_library : ℕ → Answers → Fresh → Ptr → Library → Option Heads → Run Outcome
open_library f a m first_run l none = ok (refused l)
open_library f a m first_run l (some h) =
    if a.count_mutex then create_thread f a m first_run (opened h l) else fault

-- my_pthread_create.
unfoldable pub create : ℕ → Answers → Fresh → Ptr → Library → Run Outcome
create f a m first_run l =
    if l.made
    then create_thread f a m first_run l
    else if a.link_stack
    then open_library f a m first_run l a.heads
    else exited
