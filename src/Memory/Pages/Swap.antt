-- ===== src/Memory/Pages/Swap.antt =====
-- What swapPage and swapFileGrab leave at the page that they bring in.
use simple_os_dev_projs.Base.{
  ℕ, ◌+◌, ◌<◌, ◌≡◌, ◌≢◌, refl, Bool, true, false, ok, Ends, ends, arith, update, update_self, ◌∙◌,
}
use simple_os_dev_projs.Memory.Pages.{
  Table, Pager, Os, home, swap_nodes, swap_page, grab_nodes, swap_file_grab,
}

-- Every call of the operating system succeeds.
pub record Works (os : Os) : Type 0 where
  pub mprotect_works : (i : ℕ) → os.mprotect i ≡ true
  pub lseek_works : (i : ℕ) → os.lseek i ≡ true
  pub read_works : (i : ℕ) → os.read i ≡ true
  pub write_works : (i : ℕ) → os.write i ≡ true

-- The page at `at` is the thread's own, it is at its own place, and it may be read and written.
pub record Served (thread at : ℕ) (s : Pager) : Type 0 where
  pub is_owner : (s.table at).thread_id ≡ thread
  pub is_home : (s.table at).ret_addr ≡ home
  pub is_usable : s.is_open at ≡ true

-- The nodes of the swap file's pages carry their number there.
abbrev pub Slotted : Table → Type 0
Slotted t = (i : ℕ) → i < 3900 → (t (1600 + i)).offset_p ≡ i

pub swap_page-ok :
    (os : Os) (out into type : ℕ) (s : Pager)
    → Works os
    → swap_page os out into type s
      ≡ ok (record s {
        table = swap_nodes out into type s.table;
        frames = update (update s.frames out (s.frames into)) into (s.frames out);
        is_open = update (update s.is_open out true) into false;
      })
unfolding swap_page
swap_page-ok os out into type s w = rw (w.mprotect_works out, w.mprotect_works into) refl

pub swap_file_grab-ok :
    (os : Os) (out into : ℕ) (s : Pager)
    → Works os
    → swap_file_grab os out into s
      ≡ ok (record s {
        table = grab_nodes out into s.table;
        frames = update s.frames out (s.swap_file into);
        swap_file = update s.swap_file into (s.frames out);
        is_open = update s.is_open out true;
      })
unfolding swap_file_grab
swap_file_grab-ok os out into s w =
    rw (w.lseek_works into, w.read_works into, w.mprotect_works out, w.write_works into) refl

swap_nodes_thread :
    (out into : ℕ) (t : Table) → (swap_nodes out into 0 t out).thread_id ≡ (t into).thread_id
unfolding swap_nodes
swap_nodes_thread out into t = ground arith

swap_nodes-home : (out into : ℕ) (t : Table) → (swap_nodes out into 0 t out).ret_addr ≡ home
unfolding swap_nodes
swap_nodes-home out into t = ground arith

pub swap_nodes_else :
    (out into type j : ℕ) (t : Table) → j ≢ out → j ≢ into → swap_nodes out into type t j ≡ t j
unfolding swap_nodes
swap_nodes_else out into type j t h k = ground arith

grab_nodes_thread :
    (out into : ℕ) (t : Table)
    → out < 1600
    → (grab_nodes out into t out).thread_id ≡ (t (1600 + into)).thread_id
unfolding grab_nodes
grab_nodes_thread out into t h = ground arith

grab_nodes-home : (out into : ℕ) (t : Table) → (grab_nodes out into t out).ret_addr ≡ home
unfolding grab_nodes
grab_nodes-home out into t = ground arith

open_kept :
    (f : ℕ → Bool) (out into : ℕ) → out ≢ into → update (update f out true) into false out ≡ true
open_kept f out into h = ground arith

pub swap_page-Served :
    (os : Os) (thread out into : ℕ) (s : Pager)
    → Works os
    → out ≢ into
    → (s.table into).thread_id ≡ thread
    → Ends (Served thread out) (swap_page os out into 0 s)
swap_page-Served os thread out into s w ne e = rw (swap_page-ok os out into 0 s w) (
    ends (record {
      is_owner = swap_nodes_thread out into s.table ∙ e;
      is_home = swap_nodes-home out into s.table;
      is_usable = open_kept s.is_open out into ne;
    }))

pub swap_file_grab-Served :
    (os : Os) (thread out into : ℕ) (s : Pager)
    → Works os
    → out < 1600
    → (s.table (1600 + into)).thread_id ≡ thread
    → Ends (Served thread out) (swap_file_grab os out into s)
swap_file_grab-Served os thread out into s w less e = rw (swap_file_grab-ok os out into s w) (
    ends (record {
      is_owner = grab_nodes_thread out into s.table less ∙ e;
      is_home = grab_nodes-home out into s.table;
      is_usable = update_self s.is_open out true;
    }))
