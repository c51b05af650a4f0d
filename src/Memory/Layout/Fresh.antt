-- ===== src/Memory/Layout/Fresh.antt =====
-- The page table that buildKernalSpace leaves, and the order of its regions.
use simple_os_dev_projs.Base.{
  ℕ, zero, suc, ◌+◌, ◌*◌, ◌^◌, ◌≤◌, ◌<◌, ◌≡◌, refl, ◌∙◌, Bool, true, false, ok, Ends, ends, arith,
  update, update_self, update_ne, ap,
}
use simple_os_dev_projs.Memory.Word.{add64}
use simple_os_dev_projs.Memory.Pages.{Table, Page, Pager, Os}
use simple_os_dev_projs.Memory.Layout.{
  Layout, lay_out, fresh_node, init_nodes, protect_all, Setup, build_kernal_space,
}

pub mul_step : (i p : ℕ) → suc i * p ≡ i * p + p
mul_step i p = omega arith

pub mul_mono : (i j p : ℕ) → i ≤ j → i * p ≤ j * p
mul_mono zero j p h = omega arith
mul_mono (suc i) zero p h = ground arith
mul_mono (suc i) (suc j) p h = omega (arith, mul_mono i j p (omega arith))

init_nodes-before : (r i temp : ℕ) (t : Table) (j : ℕ) → j < temp → init_nodes r i temp t j ≡ t j
unfolding init_nodes
init_nodes-before zero i temp t j h = refl
init_nodes-before (suc r) i temp t j h =
    init_nodes-before r (suc i) (suc temp) _ j (omega arith)
    ∙ update_ne t temp (fresh_node i) j (omega arith)

init_nodes-first :
    (r i temp : ℕ) (t : Table) (j m : ℕ)
    → j ≡ temp
    → m ≡ i
    → init_nodes (suc r) i temp t j ≡ fresh_node m
unfolding init_nodes
init_nodes-first r i temp t j m e d =
    rw (e, d)
      (init_nodes-before r (suc i) (suc temp) _ temp (omega arith)
        ∙ update_self t temp (fresh_node i))

init_nodes-at :
    (r i temp : ℕ) (t : Table) (k j m : ℕ)
    → k < r
    → j ≡ temp + k
    → m ≡ i + k
    → init_nodes r i temp t j ≡ fresh_node m
unfolding init_nodes
init_nodes-at (suc r) i temp t zero j m h e d =
    init_nodes-first r i temp t j m (omega (arith, e)) (omega (arith, d))
init_nodes-at (suc r) i temp t (suc k) j m h e d =
    init_nodes-at r (suc i) (suc temp) _ k j m (omega arith) (omega (arith, e)) (omega (arith, d))
init_nodes-at zero i temp t k j m h e d = ground arith

kept_closed : (f : ℕ → Bool) (p j : ℕ) → f j ≡ false → update f p false j ≡ false
kept_closed f p j h = ground arith

closed_at : (f : ℕ → Bool) (p j : ℕ) → j ≡ p → update f p false j ≡ false
closed_at f p j h = ground arith

-- protect_all writes only the protection.
protect_all_same :
    (os : Os) (r i : ℕ) (s : Pager)
    → ((protect_all os r i s).table ≡ s.table) × ((protect_all os r i s).cursor ≡ s.cursor)
unfolding protect_all
protect_all_same os zero i s = (refl, refl)
protect_all_same os (suc r) i s = protect_all_same os r (suc i) _

protect_all-closed :
    (os : Os) (r i : ℕ) (s : Pager) (j : ℕ)
    → ((k : ℕ) → os.mprotect k ≡ true)
    → (s.is_open j ≡ false)
    → (protect_all os r i s).is_open j ≡ false
unfolding protect_all
protect_all-closed os zero i s j w h = h
protect_all-closed os (suc r) i s j w h =
    protect_all-closed os r (suc i) _ j w
      (rw (w (s.table i).offset_p) (kept_closed s.is_open (s.table i).offset_p j h))

protect_all-closes :
    (os : Os) (r i : ℕ) (s : Pager) (j k : ℕ)
    → ((k : ℕ) → os.mprotect k ≡ true)
    → ((k : ℕ) → k < 1600 → (s.table k).offset_p ≡ k)
    → i + r ≤ 1600
    → k < r
    → j ≡ i + k
    → (protect_all os r i s).is_open j ≡ false
unfolding protect_all
protect_all-closes os (suc r) i s j zero w num le h e = protect_all-closed os r (suc i) _ j w (
    rw (w (s.table i).offset_p)
      (closed_at s.is_open (s.table i).offset_p j (omega (arith, e, num i (omega arith)))))
protect_all-closes os (suc r) i s j (suc k) w num le h e =
    protect_all-closes os r (suc i) _ j k w num (omega arith) (omega arith) (omega (arith, e))
protect_all-closes os zero i s j k w num le h e = ground arith

-- What buildKernalSpace leaves: every page is free, at its own place and closed, the search for a
-- victim starts at the first, and the regions follow one another from the 18 pages of the table on.
pub record Fresh (space page : ℕ) (l : Layout) (s : Pager) : Type 0 where
  pub memory_free : (i : ℕ) → i < 1600 → s.table i ≡ fresh_node i
  pub swap_free : (i : ℕ) → i < 3900 → s.table (1600 + i) ≡ fresh_node i
  pub all_closed : (i : ℕ) → i < 1600 → s.is_open i ≡ false
  pub cursor_first : s.cursor ≡ 0
  pub scheduler_region : l.scheduler_end ≡ l.kernal_end + 200 * page
  pub thread_region : l.limit ≡ l.scheduler_end + 1600 * page
  pub counts_region : l.thread_pages_count_end ≡ l.limit + page
  pub shared_region : l.shalloc_end ≡ l.thread_pages_count_end + 4 * page
  pub starts : l.kernal_end ≡ space + 18 * page

fresh_table : Table → Table
fresh_table t = init_nodes 3900 0 1600 (init_nodes 1600 0 0 t)

fresh_memory : (t : Table) (i : ℕ) → i < 1600 → fresh_table t i ≡ fresh_node i
unfolding fresh_table
fresh_memory t i h =
    init_nodes-before 3900 0 1600 _ i h
    ∙ init_nodes-at 1600 0 0 t i i i h (omega arith) (omega arith)

fresh_swap : (t : Table) (i : ℕ) → i < 3900 → fresh_table t (1600 + i) ≡ fresh_node i
unfolding fresh_table
fresh_swap t i h = init_nodes-at 3900 0 1600 _ i (1600 + i) i h refl (omega arith)

lay_out-exact :
    (space page : ℕ)
    → space + 1823 * page < 2 ^ 64
    → let l = lay_out space page in
      (l.kernal_end ≡ space + 18 * page)
      × (l.scheduler_end ≡ space + 218 * page)
      × (l.limit ≡ space + 1818 * page)
      × (l.thread_pages_count_end ≡ space + 1819 * page)
      × (l.shalloc_end ≡ space + 1823 * page)
unfolding lay_out add64
lay_out-exact space page h =
    (omega (arith, h), omega (arith, h), omega (arith, h), omega (arith, h), omega (arith, h))

build_kernal_space-ok :
    (os : Os) (set : Setup) (image : ℕ → Page) (space page : ℕ) (s : Pager)
    → set.sigaction ≡ true
    → set.open_swap ≡ true
    → set.rewind_swap ≡ true
    → build_kernal_space os set image space page s
      ≡ ok (
        lay_out space page,
        record (protect_all os 1600 0 (record s { table = fresh_table s.table; cursor = 0 })) {
          swap_file = image;
        },
      )
unfolding build_kernal_space fresh_table
build_kernal_space-ok os set image space page s a b c = rw (a, b, c) refl

-- Where the calls of the operating system succeed and the memory does not reach the end of the
-- addresses, every page in memory and in the swap file is free and at its own place, the pages in
-- memory are closed, the hand is on the first, and the regions of the scheduler, the threads, the
-- page counts and shalloc lie one behind another.
pub build_kernal_space-Fresh :
    (os : Os) (set : Setup) (image : ℕ → Page) (space page : ℕ) (s : Pager)
    → set.sigaction ≡ true
    → set.open_swap ≡ true
    → set.rewind_swap ≡ true
    → ((k : ℕ) → os.mprotect k ≡ true)
    → space + 1823 * page < 2 ^ 64
    → Ends (λ r. Fresh space page r.0 r.1) (build_kernal_space os set image space page s)
build_kernal_space-Fresh os set image space page s a b c w h =
    rw (build_kernal_space-ok os set image space page s a b c) (
      ends (
        let t = fresh_table s.table in
        let s1 = record s { table = t; cursor = 0 } in
        let same = protect_all_same os 1600 0 s1 in
        let l = lay_out-exact space page h in
        record {
          memory_free = λ i k. ap (λ u. u i) same.0 ∙ fresh_memory s.table i k;
          swap_free = λ i k. ap (λ u. u (1600 + i)) same.0 ∙ fresh_swap s.table i k;
          all_closed = λ i k.
              protect_all-closes os 1600 0 s1 i i w
                (λ j m. ap (λ n. n.offset_p) (fresh_memory s.table j m)) (omega arith) k
                (omega arith);
          cursor_first = same.1;
          scheduler_region = omega (arith, l.0, l.1);
          thread_region = omega (arith, l.1, l.2);
          counts_region = omega (arith, l.2, l.3);
          shared_region = omega (arith, l.3, l.4);
          starts = l.0;
        }))
