-- ===== src/Memory/Allocate.antt =====
-- myallocate, schedulerallocate, shalloc and mydeallocate of Memory_Manager/totalrecall.c on the
-- whole state of the memory manager.
pub mod Count
pub mod Conserve
pub mod First
use simple_os_dev_projs.Base.{
  ℕ, zero, suc, ◌+◌, ◌-◌, ◌*◌, ◌%◌, Bool, not, Run, ok, spent, ◌>>=◌, ◌==◌, ltb, leb, if◌then◌else◌,
  update,
}
use simple_os_dev_projs.Memory.Word.{sext, add64, to_int}
use simple_os_dev_projs.Memory.Region.{
  Addr, null, Mem, node_size, magic, Found, reuse, last, find_fit, region_allocate,
}
use simple_os_dev_projs.Memory.Release.{region_deallocate}
use simple_os_dev_projs.Memory.Pages.{Page, Pager, Os}
use simple_os_dev_projs.Memory.Layout.{Layout, Setup, build_kernal_space}
use simple_os_dev_projs.Memory.Fault.{protect_pages}

-- The variables of totalrecall.c. `mem` is memory as the running thread reads it: the page faults
-- that bring its pages in are handled on the way.
pub record Manager : Type 0 where
  pub start : ℕ
  pub layout : Layout
  pub pager : Pager
  pub mem : Mem
  pub counts : ℕ → ℕ
  pub pages_left : ℕ

-- What the machine answers: its calls, the memory of posix_memalign and the size of a page.
pub record Machine : Type 0 where
  pub os : Os
  pub set : Setup
  pub image : ℕ → Page
  pub space : ℕ
  pub page : ℕ

abbrev pub library_req : ℕ
library_req = 9999

-- `if(start == 0) { start = 1; buildKernalSpace(); }`
unfoldable pub ensure_built : Machine → Manager → Run Manager
ensure_built mc s =
    if s.start == 0
    then (do
      (l, p) ← build_kernal_space mc.os mc.set mc.image mc.space mc.page s.pager
      ok (record s { start = 1; layout = l; pager = p }))
    else ok s

-- schedulerallocate.
unfoldable pub schedulerallocate : ℕ → ℕ → Manager → Run (Addr × Manager)
schedulerallocate f size s = do
  (a, m) ← region_allocate f s.layout.kernal_end s.layout.scheduler_end size s.mem
  ok (a, record s { mem = m })

-- shalloc.
unfoldable pub shalloc : ℕ → Machine → ℕ → Manager → Run (Addr × Manager)
shalloc f mc size s = do
  s1 ← ensure_built mc s
  (a, m) ← region_allocate f s1.layout.thread_pages_count_end s1.layout.shalloc_end size s1.mem
  ok (a, record s1 { mem = m })

-- The empty loops of lines 557 and 609: `n * PAGE_SIZE + space` is an `int`.
unfoldable pub count_pages : ℕ → (page space bytes n : ℕ) → Run ℕ
count_pages zero page space bytes n = spent
count_pages (suc f) page space bytes n =
    let rest = count_pages f page space bytes (suc n) in
    if leb (sext (to_int (n * page + space))) bytes then rest else ok n

-- The thread gets `n` pages more, lines 564 and 616.
unfoldable pub charge_pages : (thread n : ℕ) → Manager → Manager
charge_pages thread n s = record s {
  counts = update s.counts thread (s.counts thread + n);
  pages_left = s.pages_left - n;
}

-- A step of myallocate that returns NULL or goes on.
pub data Charge : Type 0 where
  denied : Manager → Charge
  charged : Manager → Charge

unfoldable pub pay : (thread n : ℕ) → Manager → Charge
pay thread n s = if ltb s.pages_left n then denied s else charged (charge_pages thread n s)

-- Lines 551 to 566.
unfoldable pub first_charge : ℕ → (thread size : ℕ) → Manager → Run Charge
first_charge f thread size s =
    let head = s.layout.scheduler_end in
    let counted = (do
      n ← count_pages f s.layout.page_size 0 (add64 size node_size) 1
      ok (pay thread n s)) in
    if s.counts thread == 0
    then (if leb s.layout.limit (add64 (add64 head node_size) size) then ok (denied s) else counted)
    else ok (charged s)

-- Lines 569 to 578.
unfoldable pub start_heap : ℕ → Manager → Addr × Manager
start_heap size s =
    let head = s.layout.scheduler_end in
    (
      add64 head node_size,
      record s {
        mem = update s.mem head (record {
          signature = magic;
          next = null;
          prev = null;
          in_use = 1;
          capacity = to_int size;
        });
      },
    )

-- Lines 620 to 629.
unfoldable pub put_node : (size : ℕ) → (p new : Addr) → Manager → Addr × Manager
put_node size p new s =
    let m1 =
      update s.mem new
        (record (s.mem new) { signature = magic; capacity = to_int size; in_use = 1; prev = p }) in
    let m2 = update m1 p (record (m1 p) { next = new }) in
    (add64 new node_size, record s { mem = update m2 new (record (m2 new) { next = null }) })

unfoldable pub finish : (size : ℕ) → (p new : Addr) → Charge → Addr × Manager
finish size p new (denied s) = (null, s)
finish size p new (charged s) = put_node size p new s

-- Lines 599 to 629.
unfoldable pub extend_heap : ℕ → (thread size : ℕ) → Addr → Manager → Run (Addr × Manager)
extend_heap f thread size p s =
    let new = add64 (add64 p node_size) (sext (s.mem p).capacity) in
    let page = s.layout.page_size in
    let space = page - add64 new node_size % page in
    let counted = (do
      n ← count_pages f page space size 0
      ok (finish size p new (pay thread n s))) in
    if leb s.layout.limit (add64 (add64 new node_size) size) then ok (null, s) else counted

unfoldable pub place : ℕ → (thread size : ℕ) → Manager → Found → Run (Addr × Manager)
place f thread size s (reuse t) =
    ok (add64 t node_size, record s { mem = update s.mem t (record (s.mem t) { in_use = 1 }) })
place f thread size s (last p) = extend_heap f thread size p s

-- Lines 569 to 629.
unfoldable pub take_block : ℕ → (thread size : ℕ) → Charge → Run (Addr × Manager)
take_block f thread size (denied s) = ok (null, s)
take_block f thread size (charged s) =
    let head = s.layout.scheduler_end in
    if (s.mem head).signature == magic
    then (do r ← find_fit f s.mem size head head; place f thread size s r)
    else ok (start_heap size s)

-- Lines 544 to 629: a request of a thread.
unfoldable pub thread_allocate : ℕ → (thread size : ℕ) → Manager → Run (Addr × Manager)
thread_allocate f thread size s = do c ← first_charge f thread size s; take_block f thread size c

-- Lines 537 to 540: a request of the scheduler.
unfoldable pub library_allocate : ℕ → Os → (thread size : ℕ) → Manager → Run (Addr × Manager)
library_allocate f os thread size s =
    let (p, left, counts) = protect_pages os thread 0 s.pager s.pages_left s.counts in
    schedulerallocate f size (record s { pager = p; pages_left = left; counts = counts })

-- myallocate; `thread` is currThread.
unfoldable pub myallocate : ℕ → Machine → (thread size req : ℕ) → Manager → Run (Addr × Manager)
myallocate f mc thread size req s = do
  s1 ← ensure_built mc s
  (if size == 0
      then ok (null, s1)
      else if req == library_req
      then library_allocate f mc.os thread size s1
      else thread_allocate f thread size s1)

-- mydeallocate.
unfoldable pub mydeallocate : ℕ → (ptr : Addr) → (req : ℕ) → Manager → Run Manager
mydeallocate f ptr req s =
    let l = s.layout in
    let freed = (do
      m ←
          (if req == library_req
            then region_deallocate f l.kernal_end l.scheduler_end ptr s.mem
            else region_deallocate f l.scheduler_end l.limit ptr s.mem)
      ok (record s { mem = m })) in
    if s.start == 0 then ok s else freed
