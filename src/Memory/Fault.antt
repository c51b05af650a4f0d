-- ===== src/Memory/Fault.antt =====
-- pageFaultHandler and protectPages of Memory_Manager/totalrecall.c.
pub mod Close
pub mod Search
pub mod Serve
pub mod Locate
pub mod Restore
pub mod Protect
use simple_os_dev_projs.Base.{
  ℕ, zero, suc, ◌+◌, ◌-◌, ◌*◌, Bool, true, false, ◌&&◌, ◌||◌, not, Option, none, some, Run, ok,
  exited, ◌>>=◌, ◌==◌, ltb, if◌then◌else◌, update,
}
use simple_os_dev_projs.Memory.Word.{add64}
use simple_os_dev_projs.Memory.Layout.{Layout}
use simple_os_dev_projs.Memory.Pages.{
  PageNode, home, Table, Page, Pager, Os, unless_exit, Choice, evict_page, swap_page,
  swap_file_grab,
}

-- The loop of lines 200 to 211: the node of the page and the number of rounds, which is `i`.
unfoldable pub locate : Layout → (rounds i : ℕ) → ℕ → ℕ × ℕ
locate l zero i addr = (i, i)
locate l (suc r) i addr =
    let rest = locate l r (suc i) addr in
    if ltb addr (add64 l.scheduler_end (i * l.page_size)) then (i - 1, i) else rest

-- The loops of lines 239, 255, 294 and 316: the first node from `i` on of which the test holds.
unfoldable pub first_where : (PageNode → Bool) → (rounds i : ℕ) → Table → Option ℕ
first_where test zero i t = none
first_where test (suc r) i t =
    let rest = first_where test r (suc i) t in if test (t i) then some i else rest

unfoldable pub is_away : ℕ → ℕ → PageNode → Bool
is_away thread page n = (n.thread_id == thread) && (n.ret_addr == page)

unfoldable pub is_free : PageNode → Bool
is_free n = n.thread_id == 0

unfoldable pub set_bit : ℕ → Pager → Pager
set_bit i s = record s { table = update s.table i (record (s.table i) { reference_bit = 1 }) }

unfoldable pub claim : ℕ → ℕ → Pager → Pager
claim thread i s = record s {
  table = update s.table i (record (s.table i) { thread_id = thread; reference_bit = 1 });
}

unfoldable pub open_page : ℕ → Pager → Pager
open_page i s = record s { is_open = update s.is_open i true }

-- evictPage on the pager.
unfoldable pub choose_victim : ℕ → ℕ → Pager → Run (ℕ × Pager)
choose_victim f thread s = do
  c ← evict_page f thread s.table s.cursor
  ok (c.victim, record s { table = c.left; cursor = c.hand })

-- Lines 260 to 268 and 310 to 328: the page `at` comes from the slot of the swap file.
unfoldable pub bring_in : Os → (at into victim : ℕ) → Pager → Run Pager
bring_in os at into victim s =
    if at == victim
    then swap_file_grab os at into s
    else (do s1 ← swap_page os at victim 1 s; swap_file_grab os at into s1)

-- Lines 307 to 335: a free slot of the swap file.
unfoldable pub take_slot : Os → (at : ℕ) → (thread victim : ℕ) → Pager → Run Pager
take_slot os at thread victim s = elim (first_where is_free 3900 1600 s.table) [
  | none ↦ ok s
  | some j ↦
      let s1 = claim thread j s in
      bring_in os (s1.table at).offset_p (s1.table j).offset_p victim s1
]

-- Lines 279 to 335: nobody's page, or a free one, or a free slot.
unfoldable pub take_page : ℕ → Os → (thread at : ℕ) → Pager → Run Pager
take_page f os thread at s =
    if (s.table at).thread_id == 0
    then unless_exit (os.mprotect (s.table at).offset_p)
        (ok (claim thread at (open_page (s.table at).offset_p s)))
    else elim (first_where is_free 1600 0 s.table) [
      | some j ↦
          let s1 = claim thread j s in
          swap_page os (s1.table at).offset_p (s1.table j).offset_p 0 s1
      | none ↦ (do (victim, s1) ← choose_victim f thread s; take_slot os at thread victim s1)
    ]

-- Lines 252 to 273: the page is in the swap file.
unfoldable pub from_swap : ℕ → Os → (thread at : ℕ) → Pager → Run Pager
from_swap f os thread at s =
    elim (first_where (is_away thread (s.table at).offset_p) 3900 1600 s.table) [
      | none ↦ take_page f os thread at s
      | some j ↦ (do
        (victim, s1) ← choose_victim f thread (set_bit j s)
        bring_in os (s1.table at).offset_p (s1.table j).offset_p victim s1)
    ]

-- Lines 237 to 248: the page is at another place in memory.
unfoldable pub from_memory : ℕ → Os → (thread at : ℕ) → Pager → Run Pager
from_memory f os thread at s =
    elim (first_where (is_away thread (s.table at).offset_p) 1600 0 s.table) [
      | none ↦ from_swap f os thread at s
      | some j ↦
          let s1 = set_bit j s in swap_page os (s1.table at).offset_p (s1.table j).offset_p 0 s1
    ]

-- Lines 223 to 335, for the page at `at`.
unfoldable pub serve : ℕ → Os → (thread at : ℕ) → Pager → Run Pager
serve f os thread at s =
    if is_away thread home (s.table at)
    then unless_exit (os.mprotect (s.table at).offset_p)
        (ok (open_page (s.table at).offset_p (set_bit at s)))
    else from_memory f os thread at s

-- pageFaultHandler; `count` is the number of pages that the running thread has been given.
unfoldable pub page_fault_handler : ℕ → Os → Layout → (thread count addr : ℕ) → Pager → Run Pager
page_fault_handler f os l thread count addr s =
    let (at, i) = locate l 1601 0 addr in
    if ltb addr l.scheduler_end || ltb l.limit addr
    then exited
    else if ltb count i
    then exited
    else serve f os thread at s

-- Lines 447 to 452: the page of an exiting thread.
unfoldable pub release : ℕ → Pager → Pager
release i s = record s {
  frames = update s.frames (s.table i).offset_p (λ b. 0);
  table = update s.table i (record (s.table i) { thread_id = 0; ret_addr = home });
}

-- Lines 441 to 456.
unfoldable pub protect_one : Os → (exiting i : ℕ) → Pager → Pager
protect_one os exiting i s =
    let page = (s.table i).offset_p in
    let s1 = record s {
      is_open = if os.mprotect page then update s.is_open page true else s.is_open;
    } in
    let s2 = if exiting == 1 then release i s1 else s1 in
    record s2 { is_open = if os.mprotect page then update s2.is_open page false else s2.is_open }

-- The loop of lines 439 to 460, with the rounds that are left.
unfoldable pub protect_from : Os → (thread exiting rounds i : ℕ) → Pager → Pager
protect_from os thread exiting zero i s = s
protect_from os thread exiting (suc r) i s =
    let s1 = if (s.table i).thread_id == thread then protect_one os exiting i s else s in
    if (s.table i).thread_id == 0 then s else protect_from os thread exiting r (suc i) s1

-- protectPages: the pager, the pages that are left, and how many each thread has.
unfoldable pub protect_pages :
    Os → (thread exiting : ℕ) → Pager → (left : ℕ) → (counts : ℕ → ℕ) → Pager × ℕ × (ℕ → ℕ)
protect_pages os thread exiting s left counts =
    let s1 = protect_from os thread exiting 1600 0 s in
    if exiting == 1 then (s1, left + counts thread, update counts thread 0) else (s1, left, counts)
