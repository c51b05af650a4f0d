-- ===== src/Memory/Pages.antt =====
-- The page table of Memory_Manager/totalrecall.c: PageNode of totalrecall.h, evictPage, swapPage
-- and swapFileGrab.
pub mod Evict
pub mod Swap
use simple_os_dev_projs.Base.{
  ℕ, zero, suc, ◌+◌, ◌-◌, ◌^◌, Bool, true, false, Run, ok, exited, spent, ◌>>=◌, ◌==◌,
  if◌then◌else◌, update,
}

-- `struct PageNodeN`; the `int` of the home is its bit pattern.
pub record PageNode : Type 0 where
  pub thread_id : ℕ
  pub offset_p : ℕ
  pub ret_addr : ℕ
  pub reference_bit : ℕ

-- `-1`: the page is at its own place.
abbrev pub home : ℕ
home = 2 ^ 32 - 1

abbrev pub Table : Type 0
Table = ℕ → PageNode

abbrev pub Page : Type 0
Page = ℕ → ℕ

-- The nodes from 0 up to 1599 are the pages in memory, those from 1600 up to 5499 the swap file's.
-- `cursor` is free_list_position, `is_open` says which pages may be read and written.
pub record Pager : Type 0 where
  pub table : Table
  pub cursor : ℕ
  pub frames : ℕ → Page
  pub swap_file : ℕ → Page
  pub is_open : ℕ → Bool

-- Which calls of the operating system succeed, for a page in memory and one in the swap file. The
-- answer depends on the page alone: the two calls of mprotect that swapPage makes for one page, to
-- open it and to close it, succeed or fail together.
pub record Os : Type 0 where
  pub mprotect : ℕ → Bool
  pub lseek : ℕ → Bool
  pub read : ℕ → Bool
  pub write : ℕ → Bool

abbrev pub unless_exit {ℓ} : {A : Type ℓ} → Bool → Run A → Run A
unless_exit succeeded r = if succeeded then r else exited

-- `free_list_position++`, around the pages in memory.
unfoldable pub advance : Table → ℕ → ℕ
advance t p = if (t p).offset_p == 1599 then 0 else suc p

-- Lines 156 to 163: one page of the running thread is passed over.
unfoldable pub skip_own : ℕ → Table → ℕ → ℕ
skip_own thread t p = if (t p).thread_id == thread then advance t p else p

unfoldable pub clear_bit : Table → ℕ → Table
clear_bit t p = update t p (record (t p) { reference_bit = 0 })

-- What evictPage comes back with, and what it leaves.
pub record Choice : Type 0 where
  pub victim : ℕ
  pub left : Table
  pub hand : ℕ

-- evictPage.
unfoldable pub evict_page : ℕ → ℕ → Table → ℕ → Run Choice
evict_page zero thread t p = spent
evict_page (suc f) thread t p =
    let q = skip_own thread t p in
    let rest = evict_page f thread (clear_bit t q) (advance (clear_bit t q) q) in
    if (t q).reference_bit == 1
    then rest
    else ok (record { victim = (t q).offset_p; left = t; hand = advance t q })

-- Lines 125 to 142 of swapPage; `type` 1 keeps the home of the page that comes in.
unfoldable pub swap_nodes : (out into type : ℕ) → Table → Table
swap_nodes out into type t =
    let t1 = update t into (record (t into) {
      thread_id = (t out).thread_id;
      reference_bit = (t out).reference_bit;
      ret_addr = (t out).offset_p;
    }) in
    update t1 out (record (t1 out) {
      ret_addr = (if type == 1 then (t into).ret_addr else home);
      thread_id = (t into).thread_id;
      reference_bit = (t into).reference_bit;
    })

-- swapPage.
unfoldable pub swap_page : Os → (out into type : ℕ) → Pager → Run Pager
swap_page os out into type s = unless_exit (os.mprotect out) (
    unless_exit (os.mprotect into) (
      unless_exit (os.mprotect into) (
        ok (record s {
          table = swap_nodes out into type s.table;
          frames = update (update s.frames out (s.frames into)) into (s.frames out);
          is_open = update (update s.is_open out true) into false;
        }))))

-- Lines 86 to 96 of swapFileGrab.
unfoldable pub grab_nodes : (out into : ℕ) → Table → Table
grab_nodes out into t =
    let slot = 1600 + into in
    let t1 =
      update t slot
        (record (t slot) { ret_addr = (t out).offset_p; thread_id = (t out).thread_id }) in
    update t1 out (record (t1 out) { ret_addr = home; thread_id = (t slot).thread_id })

-- swapFileGrab.
unfoldable pub swap_file_grab : Os → (out into : ℕ) → Pager → Run Pager
swap_file_grab os out into s = unless_exit (os.lseek into) (
    unless_exit (os.read into) (
      unless_exit (os.mprotect out) (
        unless_exit (os.lseek into) (
          unless_exit (os.write into) (
            ok (record s {
              table = grab_nodes out into s.table;
              frames = update s.frames out (s.swap_file into);
              swap_file = update s.swap_file into (s.frames out);
              is_open = update s.is_open out true;
            }))))))
