-- ===== src/Memory/Fault/Locate.antt =====
-- The page of a faulting address, and the whole of pageFaultHandler.
use simple_os_dev_projs.Base.{
  ℕ, zero, suc, ◌+◌, ◌-◌, ◌*◌, ◌^◌, ◌≤◌, ◌<◌, ◌≡◌, ◌≢◌, ◌∙◌, true, false, Ends, arith, ltb, if_true,
  if_false, ℕ_discrete, ap,
}
use simple_os_dev_projs.Memory.Word.{add64, add64-small}
use simple_os_dev_projs.Memory.Layout.{Layout}
use simple_os_dev_projs.Memory.Layout.Fresh.{mul_mono}
use simple_os_dev_projs.Memory.Pages.{Pager, Os, home}
use simple_os_dev_projs.Memory.Pages.Evict.{Numbered, count_set}
use simple_os_dev_projs.Memory.Pages.Swap.{Works, Served, Slotted}
use simple_os_dev_projs.Memory.Fault.{locate, serve, page_fault_handler}
use simple_os_dev_projs.Memory.Fault.Serve.{serve-Served}

locate-here :
    (l : Layout) (r i addr : ℕ)
    → ltb addr (add64 l.scheduler_end (i * l.page_size)) ≡ true
    → locate l (suc r) i addr ≡ (i - 1, i)
unfolding locate
locate-here l r i addr h = if_true _ _ _ h

locate-later :
    (l : Layout) (r i addr : ℕ)
    → ltb addr (add64 l.scheduler_end (i * l.page_size)) ≡ false
    → locate l (suc r) i addr ≡ locate l r (suc i) addr
unfolding locate
locate-later l r i addr h = if_false _ _ _ h

pred_suc : (n : ℕ) → suc n - 1 ≡ n
pred_suc n = omega arith

checked :
    (f : ℕ) (os : Os) (l : Layout) (thread count addr at i : ℕ) (s : Pager)
    → locate l 1601 0 addr ≡ (at, i)
    → l.scheduler_end ≤ addr
    → addr ≤ l.limit
    → i ≤ count
    → page_fault_handler f os l thread count addr s ≡ serve f os thread at s
unfolding page_fault_handler
checked f os l thread count addr at i s e lo hi owned = rw e (ground (arith, lo, hi, owned))

ltb-true : (a b : ℕ) → a < b → ltb a b ≡ true
ltb-true a b h = ground arith

ltb-false : (a b : ℕ) → b ≤ a → ltb a b ≡ false
ltb-false a b h = ground arith

-- The address lies in the page at `at`, and the memory does not reach the end of the addresses.
module _ (l : Layout) (at addr : ℕ) (la : at < 1600)
    (lo : l.scheduler_end + at * l.page_size ≤ addr)
    (hi : addr < l.scheduler_end + suc at * l.page_size)
    (fits : l.scheduler_end + 1600 * l.page_size < 2 ^ 64) where
  start_of :
      (i : ℕ)
      → i ≤ 1600
      → add64 l.scheduler_end (i * l.page_size) ≡ l.scheduler_end + i * l.page_size
  start_of i h = add64-small _ _ (omega (arith, mul_mono i 1600 l.page_size h, fits))

  locate-page : (r i : ℕ) → i ≤ suc at → suc at < i + r → locate l r i addr ≡ (at, suc at)
  locate-page zero i h k = ground arith
  locate-page (suc r) i h k = elim (ℕ_discrete i (suc at)) [
    | yes e ↦ rw e (
        locate-here l r (suc at) addr (rw (start_of (suc at) (omega arith)) (ltb-true _ _ hi))
        ∙ ap (λ n. (n, suc at)) (pred_suc at))
    | no ne ↦
        locate-later l r i addr (
          rw (start_of i (omega arith))
            (ltb-false _ _ (omega (arith, mul_mono i at l.page_size (omega arith), lo))))
        ∙ locate-page r (suc i) (omega arith) (omega arith)
  ]

  in_region : (l.scheduler_end ≤ addr) × (addr ≤ l.scheduler_end + 1600 * l.page_size)
  in_region =
      (omega (arith, lo), omega (arith, hi, mul_mono (suc at) 1600 l.page_size (omega arith)))

  handler-serves :
      (f : ℕ) (os : Os) (thread count : ℕ) (s : Pager)
      → l.limit ≡ l.scheduler_end + 1600 * l.page_size
      → at < count
      → page_fault_handler f os l thread count addr s ≡ serve f os thread at s
  handler-serves f os thread count s e owned =
      checked f os l thread count addr at (suc at) s
        (locate-page 1601 0 (omega arith) (omega arith)) in_region.0 (rw e in_region.1) owned

  -- A fault at an address of page `at`, of which the running thread has been given so many, is
  -- served: the handler finds the page, and the thread then owns it, it is at its own place and it
  -- may be read and written. The memory does not reach the end of the addresses, every call of the
  -- operating system succeeds, the page nodes are numbered, the hand is on a page in memory, there
  -- are more rounds than reference bits that are set, and some page or slot is free. If the page
  -- touched is free it is at its own place, and it is not on record as away at that same place.
  pub page_fault_handler-Served :
      (f : ℕ) (os : Os) (thread count : ℕ) (s : Pager)
      → l.limit ≡ l.scheduler_end + 1600 * l.page_size
      → at < count
      → Works os
      → Numbered s.table
      → Slotted s.table
      → s.cursor < 1600
      → count_set 1600 s.table < f
      → (k : ℕ) → k < 5500
      → (s.table k).thread_id ≡ 0
      → ((s.table at).thread_id ≡ 0 → (s.table at).ret_addr ≡ home)
      → (s.table at).ret_addr ≢ at
      → Ends (Served thread at) (page_fault_handler f os l thread count addr s)
  page_fault_handler-Served f os thread count s e owned w num slots hand less k hk room stale away =
      rw (handler-serves f os thread count s e owned)
        (serve-Served f os thread at s w la num slots hand less k hk room stale away)
