-- ===== src/Memory/Fault/Serve.antt =====
-- pageFaultHandler gives the running thread the page that it touched.
use simple_os_dev_projs.Base.{
  ℕ, ◌+◌, ◌-◌, ◌≤◌, ◌<◌, ◌≡◌, ◌≢◌, ap, ◌∙◌, inl, inr, true, false, Bool-cases, ok, ◌==◌, ==_iff,
  Ends, ends, Ends-bind, arith, if_true, if_false, dec_lt,
}
use simple_os_dev_projs.Memory.Pages.{Table, Pager, Os, home, unless_exit}
use simple_os_dev_projs.Memory.Pages.Evict.{Numbered, count_set, count_set-ext}
use simple_os_dev_projs.Memory.Pages.Swap.{Works, Served, Slotted, swap_page-Served}
use simple_os_dev_projs.Memory.Fault.{
  is_away, is_free, set_bit, claim, open_page, take_slot, take_page, from_swap, from_memory, serve,
}
use simple_os_dev_projs.Memory.Fault.Search.{
  is_away_sound, is_free_sound, is_free-false, bring_in-Served, Kept, choose_victim-Chosen,
  set_bit-Kept, set_bit_same, claim_self, claim_offset, searched,
}

slot_at :
    (t : Table) (i k : ℕ) → i ≡ 1600 + k → (t (1600 + k)).offset_p ≡ k → 1600 + (t i).offset_p ≡ i
slot_at t i k e h = rw e (ap (λ j. 1600 + j) h)

slot_of : (t : Table) (i : ℕ) → Slotted t → 1600 ≤ i → i < 5500 → 1600 + (t i).offset_p ≡ i
slot_of t i h lo hi = slot_at t i (i - 1600) (omega arith) (h (i - 1600) (omega arith))

Kept-Numbered : {s u : Pager} → Kept s u → Numbered s.table → Numbered u.table
Kept-Numbered k h i l = k.kept_offset i ∙ h i l

Kept-Slotted : {s u : Pager} → Kept s u → Slotted s.table → Slotted u.table
Kept-Slotted k h i l = k.kept_offset (1600 + i) ∙ h i l

set_bit_count :
    (j n : ℕ) (s : Pager) → n ≤ j → count_set n (set_bit j s).table ≡ count_set n s.table
unfolding set_bit
set_bit_count j n s h = count_set-ext n s.table _ (λ i l. ground arith)

take_page-own :
    (f : ℕ) (os : Os) (thread at : ℕ) (s : Pager)
    → ((s.table at).thread_id == 0) ≡ true
    → take_page f os thread at s
      ≡ unless_exit
          (os.mprotect (s.table at).offset_p)
          (ok (claim thread at (open_page (s.table at).offset_p s)))
unfolding take_page
take_page-own f os thread at s e = if_true _ _ _ e

opened-Served :
    (thread at : ℕ) (s : Pager)
    → (s.table at).ret_addr ≡ home
    → Served thread at (claim thread at (open_page at s))
unfolding claim open_page
opened-Served thread at s h = record {
  is_owner = ground arith;
  is_home = ground (arith, h);
  is_usable = ground arith;
}

reopened-Served :
    (thread at : ℕ) (s : Pager)
    → (s.table at).thread_id ≡ thread
    → (s.table at).ret_addr ≡ home
    → Served thread at (open_page at (set_bit at s))
unfolding set_bit open_page
reopened-Served thread at s o h = record {
  is_owner = ground (arith, o);
  is_home = ground (arith, h);
  is_usable = ground arith;
}

behind :
    (t : Table) (k : ℕ)
    → ((j : ℕ) → 0 ≤ j → j < 0 + 1600 → is_free (t j) ≡ false)
    → (t k).thread_id ≡ 0
    → 1600 ≤ k
behind t k misses room = elim (dec_lt k 1600) [
  | yes l ↦ elim (is_free-false _ (misses k (omega arith) l) room) [ ]
  | no n ↦ omega arith
]

test_false : (b : ℕ) → (b == 0) ≡ false → b ≢ 0
test_false b e = ground arith

apart : (t : Table) (at i : ℕ) → ((t at).thread_id == 0) ≡ false → is_free (t i) ≡ true → at ≢ i
apart t at i taken hit e =
    elim (test_false _ taken (ap (λ j. (t j).thread_id) e ∙ is_free_sound _ hit)) [ ]

-- The pages are numbered, the hand is on one of them, the rounds suffice for the second chance, and
-- there is a free page somewhere.
module _ (f : ℕ) (os : Os) (thread at : ℕ) (s : Pager) (w : Works os) (la : at < 1600)
    (num : Numbered s.table) (slots : Slotted s.table) (hand : s.cursor < 1600)
    (less : count_set 1600 s.table < f) (k : ℕ) (hk : k < 5500)
    (room : (s.table k).thread_id ≡ 0) where
  take_slot-Served :
      (victim : ℕ) (u : Pager)
      → Kept s u
      → victim < 1600
      → 1600 ≤ k
      → Ends (Served thread at) (take_slot os at thread victim u)
  unfolding take_slot
  take_slot-Served victim u same lv lo = elim (searched is_free 3900 1600 u.table) [
    | inl (e, misses) ↦
        elim (is_free-false _ (misses k lo (omega arith)) (same.kept_thread k ∙ room)) [ ]
    | inr (i, e, hit, il, ih) ↦
        rw (e, take_slot)
          (rw (claim_offset thread i at u, claim_offset thread i i u, Kept-Numbered same num at la)
            (bring_in-Served os thread at _ victim (claim thread i u) w la lv (
              rw (slot_of u.table i (Kept-Slotted same slots) il (omega arith))
                (claim_self thread i u))))
  ]

  take_page-Served :
      ((s.table at).thread_id ≡ 0 → (s.table at).ret_addr ≡ home)
      → Ends (Served thread at) (take_page f os thread at s)
  unfolding take_page
  take_page-Served stale = elim (Bool-cases ((s.table at).thread_id == 0)) [
    | inl free ↦ rw (take_page-own f os thread at s free) (
        rw (num at la, w.mprotect_works at)
          (ends (opened-Served thread at s (stale ((==_iff _ _).0 free)))))
    | inr taken ↦ elim (searched is_free 1600 0 s.table) [
      | inl (e, misses) ↦ rw (if_false ((s.table at).thread_id == 0) _ _ taken) (
          rw (e, take_page)
            (Ends-bind (choose_victim-Chosen f thread s num hand less)
              (λ r c. take_slot-Served r.0 r.1 c.kept c.in_memory (behind s.table k misses room))))
      | inr (i, e, hit, il, ih) ↦ rw (if_false ((s.table at).thread_id == 0) _ _ taken) (
          rw (e, take_page)
            (rw (claim_offset thread i at s, claim_offset thread i i s, num at la, num i ih)
              (swap_page-Served os thread at i (claim thread i s) w (apart s.table at i taken hit)
                (claim_self thread i s))))
    ]
  ]

  from_swap-Served :
      ((s.table at).thread_id ≡ 0 → (s.table at).ret_addr ≡ home)
      → Ends (Served thread at) (from_swap f os thread at s)
  unfolding from_swap
  from_swap-Served stale =
      elim (searched (is_away thread (s.table at).offset_p) 3900 1600 s.table) [
        | inl (e, misses) ↦ rw (e, from_swap) (take_page-Served stale)
        | inr (i, e, hit, il, ih) ↦
            rw (e, from_swap)
              (Ends-bind
                (choose_victim-Chosen f thread (set_bit i s) (Kept-Numbered (set_bit-Kept i s) num)
                  (rw (set_bit_same i s) hand) (rw (set_bit_count i 1600 s il) less))
                (λ r c.
                  rw (c.kept.kept_offset at, (set_bit-Kept i s).kept_offset at, num at la)
                    (bring_in-Served os thread at _ r.0 r.1 w la c.in_memory (
                      rw
                        (slot_of r.1.table i
                          (Kept-Slotted c.kept (Kept-Slotted (set_bit-Kept i s) slots)) il
                          (omega arith))
                        (c.kept.kept_thread i
                          ∙ (set_bit-Kept i s).kept_thread i
                          ∙ (is_away_sound _ _ _ hit).0)))))
      ]

  from_memory-Served :
      ((s.table at).thread_id ≡ 0 → (s.table at).ret_addr ≡ home)
      → (s.table at).ret_addr ≢ at
      → Ends (Served thread at) (from_memory f os thread at s)
  unfolding from_memory
  from_memory-Served stale away =
      elim (searched (is_away thread (s.table at).offset_p) 1600 0 s.table) [
        | inl (e, misses) ↦ rw (e, from_memory) (from_swap-Served stale)
        | inr (i, e, hit, il, ih) ↦
            rw (e, from_memory)
              (rw
                (
                  (set_bit-Kept i s).kept_offset at,
                  (set_bit-Kept i s).kept_offset i,
                  num at la,
                  num i ih,
                )
                (swap_page-Served os thread at i (set_bit i s) w
                  (λ q.
                    away
                      (ap (λ j. (s.table j).ret_addr) q ∙ (is_away_sound _ _ _ hit).1 ∙ num at la))
                  ((set_bit-Kept i s).kept_thread i ∙ (is_away_sound _ _ _ hit).0)))
      ]

  -- Where every call of the operating system succeeds and some page of memory or of the swap file
  -- is free, the search for the page that was touched ends, and the running thread then owns the
  -- page, which is at its own place and may be read and written: whether it was there, at another
  -- place in memory, in the swap file, or not there yet. A free page must be at its own place, and
  -- the page touched must not be on record as away at that same place.
  pub serve-Served :
      ((s.table at).thread_id ≡ 0 → (s.table at).ret_addr ≡ home)
      → (s.table at).ret_addr ≢ at
      → Ends (Served thread at) (serve f os thread at s)
  unfolding serve
  serve-Served stale away = elim (Bool-cases (is_away thread home (s.table at))) [
    | inl own ↦ rw (if_true (is_away thread home (s.table at)) _ _ own) (
        rw (num at la, w.mprotect_works at)
          (ends
            (reopened-Served thread at s (is_away_sound _ _ _ own).0 (is_away_sound _ _ _ own).1)))
    | inr other ↦
        rw (if_false (is_away thread home (s.table at)) _ _ other) (from_memory-Served stale away)
  ]
