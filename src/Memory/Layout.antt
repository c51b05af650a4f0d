-- ===== src/Memory/Layout.antt =====
-- buildKernalSpace of Memory_Manager/totalrecall.c: the regions of the memory and the fresh page
-- table.
pub mod Fresh
use simple_os_dev_projs.Base.{
  ℕ, zero, suc, ◌+◌, ◌*◌, Bool, false, Run, ok, ◌>>=◌, if◌then◌else◌, update,
}
use simple_os_dev_projs.Memory.Word.{add64}
use simple_os_dev_projs.Memory.Pages.{PageNode, home, Table, Page, Pager, Os, unless_exit}

-- The pointers that buildKernalSpace sets; `limit` is `end`.
pub record Layout : Type 0 where
  pub page_size : ℕ
  pub kernal_end : ℕ
  pub scheduler_end : ℕ
  pub limit : ℕ
  pub thread_pages_count_end : ℕ
  pub shalloc_end : ℕ

-- Lines 347 to 352.
unfoldable pub lay_out : (space page : ℕ) → Layout
lay_out space page =
    let kernal_end = add64 space (18 * page) in
    let scheduler_end = add64 kernal_end (200 * page) in
    let limit = add64 scheduler_end (1600 * page) in
    let counts_end = add64 limit page in
    record {
      page_size = page;
      kernal_end = kernal_end;
      scheduler_end = scheduler_end;
      limit = limit;
      thread_pages_count_end = counts_end;
      shalloc_end = add64 counts_end (4 * page);
    }

abbrev pub fresh_node : ℕ → PageNode
fresh_node i = record { thread_id = 0; offset_p = i; ret_addr = home; reference_bit = 0 }

-- `for(i = 0 ; i < ... ; i++)` of lines 364 and 373, with the rounds that are left, `i` and `temp`.
unfoldable pub init_nodes : (rounds i temp : ℕ) → Table → Table
init_nodes zero i temp t = t
init_nodes (suc r) i temp t = init_nodes r (suc i) (suc temp) (update t temp (fresh_node i))

-- Lines 394 to 403; a call of mprotect that fails is only reported.
unfoldable pub protect_all : Os → (rounds i : ℕ) → Pager → Pager
protect_all os zero i s = s
protect_all os (suc r) i s =
    let page = (s.table i).offset_p in
    protect_all os r (suc i)
      (record s { is_open = if os.mprotect page then update s.is_open page false else s.is_open })

-- The calls of buildKernalSpace that end the program when they fail.
pub record Setup : Type 0 where
  pub sigaction : Bool
  pub open_swap : Bool
  pub rewind_swap : Bool

-- buildKernalSpace, of the memory that posix_memalign found; `image` is what the two writes leave in
-- the swap file.
unfoldable pub build_kernal_space :
    Os → Setup → (image : ℕ → Page) → (space page : ℕ) → Pager → Run (Layout × Pager)
build_kernal_space os set image space page s =
    let t = init_nodes 3900 0 1600 (init_nodes 1600 0 0 s.table) in
    let s1 = record s { table = t; cursor = 0 } in
    unless_exit set.sigaction (
      unless_exit set.open_swap (
        unless_exit set.rewind_swap
          (ok (lay_out space page, record (protect_all os 1600 0 s1) { swap_file = image }))))
