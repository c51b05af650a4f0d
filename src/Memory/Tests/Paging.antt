-- ===== src/Memory/Tests/Paging.antt =====
-- Pages that are set up, evicted, served and protected.
use simple_os_dev_projs.Base.{ℕ, refl, ◌-◌, true, false, Ends, arith, ltb, ◌==◌, if◌then◌else◌}
use simple_os_dev_projs.Memory.Pages.{home, Table, Pager, Os, evict_page}
use simple_os_dev_projs.Memory.Pages.Evict.{Numbered, Evicted, count_set-le, evict_page-Evicted}
use simple_os_dev_projs.Memory.Pages.Swap.{Works, Served, Slotted}
use simple_os_dev_projs.Memory.Layout.{Layout, fresh_node, Setup, build_kernal_space}
use simple_os_dev_projs.Memory.Layout.Fresh.{Fresh, build_kernal_space-Fresh}
use simple_os_dev_projs.Memory.Fault.{
  first_where, is_away, serve, page_fault_handler, protect_pages,
}
use simple_os_dev_projs.Memory.Fault.Locate.{page_fault_handler-Served}
use simple_os_dev_projs.Memory.Fault.Restore.{Restored, serve-Restored}
use simple_os_dev_projs.Memory.Fault.Close.{Protected}
use simple_os_dev_projs.Memory.Fault.Protect.{protect_pages-Protected}

abbrev pub good_os : Os
good_os = record { mprotect = λ _. true; lseek = λ _. true; read = λ _. true; write = λ _. true }

good_os-Works : Works good_os
good_os-Works = record {
  mprotect_works = λ _. refl;
  lseek_works = λ _. refl;
  read_works = λ _. refl;
  write_works = λ _. refl;
}

-- Who has the first pages: thread 1 the first, thread 2 the second, nobody the others.
abbrev owner : ℕ → ℕ
owner i = if i == 0 then 1 else if i == 1 then 2 else 0

abbrev shared : Table
shared i = record (fresh_node (if ltb i 1600 then i else i - 1600)) {
  thread_id = owner i;
  reference_bit = if i == 0 then 1 else 0;
}

abbrev pub pager : Pager
pager = record {
  table = shared;
  cursor = 0;
  frames = λ _ _. 7;
  swap_file = λ _ _. 0;
  is_open = λ _. false;
}

shared-Numbered : Numbered shared
shared-Numbered i h = ground arith

shared-Slotted : Slotted shared
shared-Slotted i h = ground arith

evict_page-Evicted_example : Ends (Evicted shared) (evict_page 1601 2 shared 0)
evict_page-Evicted_example =
    evict_page-Evicted 1601 2 shared 0 shared-Numbered (omega arith)
      (omega (arith, count_set-le 1600 shared))

abbrev pub good_setup : Setup
good_setup = record { sigaction = true; open_swap = true; rewind_swap = true }

build_kernal_space-Fresh_example :
    Ends
      (λ r. Fresh 40960 4096 r.0 r.1)
      (build_kernal_space good_os good_setup (λ _ _. 0) 40960 4096 pager)
build_kernal_space-Fresh_example =
    build_kernal_space-Fresh good_os good_setup (λ _ _. 0) 40960 4096 pager refl refl refl
      (λ _. refl) (omega arith)

abbrev pub plan : Layout
plan = record {
  page_size = 4096;
  kernal_end = 114688;
  scheduler_end = 933888;
  limit = 7487488;
  thread_pages_count_end = 7491584;
  shalloc_end = 7507968;
}

-- Thread 3 touches the first page, which is thread 1's.
page_fault_handler-Served_example :
    Ends (Served 3 0) (page_fault_handler 1601 good_os plan 3 2 933900 pager)
page_fault_handler-Served_example =
    page_fault_handler-Served plan 0 933900 (omega arith) (omega arith) (omega arith) (omega arith)
      1601 good_os 3 2 pager refl (omega arith) good_os-Works shared-Numbered shared-Slotted
      (omega arith) (omega (arith, count_set-le 1600 shared)) 2 (omega arith) refl
      (λ e. absurd (omega arith)) (omega arith)

protect_pages-Protected_example : Protected 1 1 (protect_pages good_os 2 1 pager 5000 (λ _. 1)).0
protect_pages-Protected_example =
    protect_pages-Protected good_os 2 1 pager 5000 (λ _. 1) 1 refl shared-Numbered (omega arith)
      (λ m h. ground arith) refl

-- Thread 1 has the first four pages.
abbrev hoard : Table
hoard i = record (fresh_node i) { thread_id = if ltb i 4 then 1 else 0 }

-- Thread 1's first page lies at place 1, and thread 2's page lies at place 0.
abbrev crossed : Table
crossed i = record (fresh_node i) {
  thread_id = if i == 0 then 2 else if i == 1 then 1 else 0;
  ret_addr = if i == 0 then 1 else if i == 1 then 0 else home;
}

abbrev swapped : Pager
swapped = record pager { table = crossed; frames = λ i _. i }

serve-Restored_example : Ends (Restored 1 0 1 swapped) (serve 5 good_os 1 0 swapped)
unfolding first_where is_away
serve-Restored_example =
    serve-Restored 5 good_os 1 0 1 swapped good_os-Works (λ i h. refl) (omega arith) refl refl
      (omega arith)
