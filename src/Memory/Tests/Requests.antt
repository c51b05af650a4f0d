-- ===== src/Memory/Tests/Requests.antt =====
-- Requests of threads and of the scheduler.
use simple_os_dev_projs.Base.{◌≢◌, refl, ◌+◌, ◌<◌, inl, [], Ends, arith}
use simple_os_dev_projs.Memory.Allocate.{Manager, schedulerallocate, thread_allocate}
use simple_os_dev_projs.Memory.Allocate.Conserve.{Balanced, thread_allocate-Balanced}
use simple_os_dev_projs.Memory.Allocate.First.{
  Started, schedulerallocate-overruns, thread_allocate-Started,
}
use simple_os_dev_projs.Memory.Tests.Data.{blank, block}
use simple_os_dev_projs.Memory.Tests.Paging.{pager, plan}

abbrev empty : Manager
empty = record {
  start = 1;
  layout = plan;
  pager = pager;
  mem = λ _. blank;
  counts = λ _. 0;
  pages_left = 5500;
}

thread_allocate-Balanced_example :
    Ends (λ r. Balanced 2 empty r.1) (thread_allocate 6000 2 5000 empty)
thread_allocate-Balanced_example =
    thread_allocate-Balanced 6000 2 5000 empty (omega arith) (omega arith) (omega arith) (block 1 1)
      [] (inl (omega arith)) (omega arith) (omega arith)

thread_allocate-Started_example :
    Ends (λ r. Started 2 5000 empty r.0 r.1) (thread_allocate 6000 2 5000 empty)
thread_allocate-Started_example =
    thread_allocate-Started 6000 2 5000 empty refl (omega arith) (omega arith) (omega arith)
      (omega arith) (omega arith) (omega arith) (omega arith) (omega arith)

-- 10 bytes less than the scheduler's region.
schedulerallocate-overruns_example :
    Ends (λ r. (r.0 ≢ 0) × (933888 < r.0 + 819190)) (schedulerallocate 10 819190 empty)
schedulerallocate-overruns_example =
    schedulerallocate-overruns 10 819190 empty (omega arith) (omega arith) (omega arith)
      (omega arith)
