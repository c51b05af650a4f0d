-- ===== src/Threads/State.antt =====
-- The data of Pthreads/my_pthread_t.h: thread control blocks in list nodes, the three priority
-- queues and the running queue. A node and the block that it owns are one cell of the store: the
-- code allocates and frees them together. Machine contexts are not modelled, a node stands for its
-- own.
use simple_os_dev_projs.Base.{
  ℕ, Option, none, some, Run, ok, fault, ◌>>=◌, ◌==◌, if◌then◌else◌, update,
}

abbrev pub Ptr : Type 0
Ptr = ℕ

abbrev pub null : Ptr
null = 0

-- The THREAD_ codes.
pub data Status : Type 0 where
  running ready suspended blocked exited missed_deadline : Status

-- `tcb_list` with its `tcb`.
pub record Node : Type 0 where
  pub status : Status
  pub priority : ℕ
  pub time_ran : ℕ
  pub thread_id : ℕ
  pub next : Ptr

-- A head and a tail of `mpq`, or the running queue's.
pub record Queue : Type 0 where
  pub head : Ptr
  pub tail : Ptr

abbrev pub Cells : Type 0
Cells = Ptr → Option Node

-- The globals that the scheduler reads and writes.
pub record Sched : Type 0 where
  pub cell : Cells
  pub queue0 : Queue
  pub queue1 : Queue
  pub queue2 : Queue
  pub run_queue : Queue
  pub empty_running_queue : ℕ

-- `*p`: a fault at `NULL` and at an address that holds no node.
unfoldable pub load : Cells → Ptr → Run Node
load c p = if p == null then fault else elim (c p) [ none ↦ fault | some n ↦ ok n ]

-- `p->next`.
unfoldable pub next_of : Cells → Ptr → Run Ptr
unfolding load
next_of c p = do n ← load c p; ok n.next

-- `p->next = q`.
unfoldable pub set_next : Cells → Ptr → Ptr → Run Cells
unfolding load
set_next c p q = do n ← load c p; ok (update c p (some (record n { next = q })))
