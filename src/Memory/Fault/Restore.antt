-- ===== src/Memory/Fault/Restore.antt =====
-- A page of the running thread that was displaced comes back to its own place.
use simple_os_dev_projs.Base.{
  ℕ, ◌<◌, ◌≡◌, ◌≢◌, refl, ap, ◌∙◌, true, false, some, Ends, ends, arith, if_false, update,
  update_self, update_ne,
}
use simple_os_dev_projs.Memory.Pages.{Pager, Os, home, swap_nodes, swap_page}
use simple_os_dev_projs.Memory.Pages.Evict.{Numbered}
use simple_os_dev_projs.Memory.Pages.Swap.{Works, swap_page-ok, swap_nodes_else}
use simple_os_dev_projs.Memory.Fault.{first_where, is_away, set_bit, from_memory, serve}
use simple_os_dev_projs.Memory.Fault.Search.{first_where_sound, is_away_sound, set_bit-Kept}

-- The page with its bytes is at its own place and open, and the page that it found there has taken
-- its place with bytes and owner, is closed, and has `at` on record as its home.
pub record Restored (thread at from : ℕ) (s u : Pager) : Type 0 where
  pub bytes : u.frames at ≡ s.frames from
  pub owner : (u.table at).thread_id ≡ thread
  pub at_home : (u.table at).ret_addr ≡ home
  pub usable : u.is_open at ≡ true
  pub displaced_bytes : u.frames from ≡ s.frames at
  pub displaced_owner : (u.table from).thread_id ≡ (s.table at).thread_id
  pub displaced_home : (u.table from).ret_addr ≡ at
  pub displaced_closed : u.is_open from ≡ false
  pub others : (i : ℕ) → i ≢ at → i ≢ from → (u.table i ≡ s.table i) × (u.frames i ≡ s.frames i)

swap_nodes-Restored :
    (thread at from : ℕ) (s : Pager)
    → at ≢ from
    → (s.table at).offset_p ≡ at
    → (s.table from).thread_id ≡ thread
    → Restored thread at from s (record s {
      table = swap_nodes at from 0 (set_bit from s).table;
      frames = update (update s.frames at (s.frames from)) from (s.frames at);
      is_open = update (update s.is_open at true) from false;
    })
unfolding swap_nodes set_bit
swap_nodes-Restored thread at from s ne e own = record {
  bytes =
      update_ne (update s.frames at (s.frames from)) from (s.frames at) at ne
      ∙ update_self s.frames at (s.frames from);
  owner = ground (arith, own);
  at_home = ground arith;
  usable = ground arith;
  displaced_bytes = update_self (update s.frames at (s.frames from)) from (s.frames at);
  displaced_owner = ground arith;
  displaced_home = ground (arith, e);
  displaced_closed = ground arith;
  others = λ i n m. (
    swap_nodes_else at from 0 i (set_bit from s).table n m ∙ update_ne s.table from _ i m,
    update_ne (update s.frames at (s.frames from)) from (s.frames at) i m
        ∙ update_ne s.frames at (s.frames from) i n,
  );
}

from_memory-found :
    (f : ℕ) (os : Os) (thread at j : ℕ) (s : Pager)
    → Numbered s.table
    → at < 1600
    → j < 1600
    → first_where (is_away thread (s.table at).offset_p) 1600 0 s.table ≡ some j
    → from_memory f os thread at s ≡ swap_page os at j 0 (set_bit j s)
unfolding from_memory
from_memory-found f os thread at j s num la lj e =
    rw (e, from_memory)
      (rw ((set_bit-Kept j s).kept_offset at, (set_bit-Kept j s).kept_offset j, num at la, num j lj)
        refl)

serve-away :
    (f : ℕ) (os : Os) (thread at : ℕ) (s : Pager)
    → is_away thread home (s.table at) ≡ false
    → serve f os thread at s ≡ from_memory f os thread at s
unfolding serve
serve-away f os thread at s h = if_false (is_away thread home (s.table at)) _ _ h

-- Where every call of the operating system succeeds and the page nodes are numbered, a page of the
-- running thread that is not at its own place, but is found at another place in memory, comes home
-- with its bytes, and the page that it finds there takes its place, with its bytes and its owner.
-- That page's home is set to `at` whatever it was, and no other page is touched. The page that is
-- found there is not on record as away at that same place.
pub serve-Restored :
    (f : ℕ) (os : Os) (thread at j : ℕ) (s : Pager)
    → Works os
    → Numbered s.table
    → at < 1600
    → is_away thread home (s.table at) ≡ false
    → first_where (is_away thread at) 1600 0 s.table ≡ some j
    → (s.table at).ret_addr ≢ at
    → Ends (Restored thread at j s) (serve f os thread at s)
unfolding set_bit
serve-Restored f os thread at j s w num la not_home e away =
    let hit = first_where_sound (is_away thread at) 1600 0 s.table j e in
    let own = is_away_sound thread at (s.table j) hit.0 in
    let ne : at ≢ j = λ q. away (ap (λ i. (s.table i).ret_addr) q ∙ own.1) in
    rw
      (
        serve-away f os thread at s not_home,
        from_memory-found f os thread at j s num la hit.2 (rw (num at la) e),
        swap_page-ok os at j 0 (set_bit j s) w,
      )
      (ends (swap_nodes-Restored thread at j s ne (num at la) own.0))
