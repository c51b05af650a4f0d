-- ===== src/Threads/Scheduler/Slice.antt =====
-- Time slices, aging and priorities.
use simple_os_dev_projs.Base.{◌+◌, ◌≤◌, ◌<◌, ◌≡◌, Bool, true, false, arith, min, if◌then◌else◌, leb}
use simple_os_dev_projs.Threads.State.{ready, Node}
use simple_os_dev_projs.Threads.Scheduler.{slice, after_slice}

-- What holds of a block between two time slices.
pub record IsCharged (n : Node) : Type 0 where
  pub level : n.priority ≤ 2
  pub young : n.time_ran < 375

-- After a slice a thread with a level up to 2 and less than 375 milliseconds is ready, still has
-- such a level and time, and keeps its id and its place. If the slice made up 375 milliseconds it
-- starts anew at level 0. Otherwise the slice is added to its time, and it falls by one level, to
-- 2 at most, just if it ran to the end.
pub after_slice-IsCharged :
    (whole : Bool) (n : Node)
    → IsCharged n
    → IsCharged (after_slice whole n)
      × (let n' = after_slice whole n in
          (n'.status ≡ ready)
          × (n'.thread_id ≡ n.thread_id)
          × (n'.next ≡ n.next)
          × (n'.time_ran ≡ (
              if leb 375 (n.time_ran + slice n.priority) then 0 else n.time_ran + slice n.priority))
          × (n'.priority ≡ (
              if leb 375 (n.time_ran + slice n.priority)
              then 0
              else if whole
              then min 2 (n.priority + 1)
              else n.priority)))
unfolding after_slice slice
after_slice-IsCharged true n h = (ground arith, ground arith)
after_slice-IsCharged false n h = (ground arith, ground arith)
