-- ===== src/Memory/Allocate/First.antt =====
-- The first allocation of a thread, and what the guard of the scheduler's region lets pass.
use simple_os_dev_projs.Base.{
  ℕ, ◌+◌, ◌*◌, ◌≤◌, ◌<◌, ◌≡◌, ◌≢◌, refl, ◌∙◌, false, Run, ok, ◌>>=◌, ◌==◌, ==_iff, Ends, ends,
  arith, leb, ltb, if_true, if_false, ◌^◌, [], ap, dec_lt,
}
use simple_os_dev_projs.Memory.Word.{add64, add64-small, to_int-small}
use simple_os_dev_projs.Memory.Region.{
  Addr, null, Mem, node_size, magic, first_node, region_allocate,
}
use simple_os_dev_projs.Memory.Region.Blocks.{Blocks}
use simple_os_dev_projs.Memory.Allocate.Count.{Enough, count_pages-Enough}
use simple_os_dev_projs.Memory.Allocate.{
  Manager, schedulerallocate, count_pages, charge_pages, charged, pay, first_charge, start_heap,
  take_block, thread_allocate,
}

-- The thread's heap is one block of the size, for which it has as many pages as the node and the
-- block reach into.
pub record Started (thread size : ℕ) (s : Manager) (a : Addr) (u : Manager) : Type 0 where
  pub address : a ≡ s.layout.scheduler_end + node_size
  pub heap : Blocks u.mem null s.layout.scheduler_end (record { used = 1; size = size }) []
  pub pages : ℕ
  pub pages-Enough : Enough s.layout.page_size 0 (size + node_size) 1 pages
  pub given : u.counts thread ≡ pages
  pub taken : u.pages_left + pages ≡ s.pages_left

first_node-in :
    (head limit size : ℕ) (m : Mem)
    → leb limit (add64 head size) ≡ false
    → first_node head limit size m ≡ (add64 head node_size, (first_node head limit size m).1)
unfolding first_node
first_node-in head limit size m h = rw (if_false (leb limit (add64 head size)) _ _ h) refl

region_allocate-first :
    (f head limit size : ℕ) (m : Mem)
    → (m head).signature ≢ magic
    → region_allocate f head limit size m ≡ ok (first_node head limit size m)
unfolding region_allocate
region_allocate-first f head limit size m h =
    if_false ((m head).signature == magic) _ _ (ground (arith, h))

-- Where no node has been written at the start of the scheduler's region, which lies below the end
-- of the addresses, a request for fewer bytes than the region has, but for more than it has behind
-- a node, is granted with a block that ends behind the region.
pub schedulerallocate-overruns :
    (f size : ℕ) (s : Manager)
    → (s.mem s.layout.kernal_end).signature ≢ magic
    → s.layout.kernal_end + size < s.layout.scheduler_end
    → s.layout.scheduler_end < s.layout.kernal_end + node_size + size
    → s.layout.scheduler_end + node_size < 2 ^ 64
    → Ends (λ r. (r.0 ≢ null) × (s.layout.scheduler_end < r.0 + size)) (schedulerallocate f size s)
unfolding schedulerallocate
schedulerallocate-overruns f size s raw fits over wide =
    let head = s.layout.kernal_end in
    let at = add64-small head node_size (omega arith) in
    rw
      (
        region_allocate-first f head s.layout.scheduler_end size s.mem raw,
        first_node-in head s.layout.scheduler_end size s.mem
            (rw (add64-small head size (omega arith)) (ground arith)),
        at,
      )
      (ends (omega arith, omega arith))

bind-assoc-Ends :
    {A B C : Type 0} {P : A → Type 0} {Q : C → Type 0} {m : Run A} {g : A → B} (k : B → Run C)
    → Ends P m
    → ((a : A) → P a → Ends Q (k (g a)))
    → Ends Q ((m >>= λ a. ok (g a)) >>= k)
bind-assoc-Ends k (ends p) next = next _ p

not_enough : (k page bytes : ℕ) → k * page + 0 ≤ bytes → ¬ (bytes < k * page)
not_enough k page bytes a b = omega arith

module _ (f thread size : ℕ) (s : Manager) where
  pay-charged :
      (n : ℕ) (u : Manager) → n ≤ u.pages_left → pay thread n u ≡ charged (charge_pages thread n u)
  unfolding pay
  pay-charged n u h = if_false (ltb u.pages_left n) _ _ (ground (arith, h))

  charge_pages-given : (n : ℕ) → s.counts thread ≡ 0 → ((charge_pages thread n s).counts thread ≡ n)
  unfolding charge_pages
  charge_pages-given n e = ground (arith, e)

  charge_pages-taken :
      (n : ℕ) → n ≤ s.pages_left → (charge_pages thread n s).pages_left + n ≡ s.pages_left
  unfolding charge_pages
  charge_pages-taken n h = omega arith

  start_heap-Started :
      (n : ℕ)
      → Enough s.layout.page_size 0 (size + node_size) 1 n
      → n ≤ s.pages_left
      → s.counts thread ≡ 0
      → size < 2 ^ 31
      → s.layout.scheduler_end + node_size < 2 ^ 64
      → Started thread size s
          (start_heap size (charge_pages thread n s)).0
          (start_heap size (charge_pages thread n s)).1
  unfolding start_heap charge_pages
  start_heap-Started n e le z small wide = record {
    address = add64-small s.layout.scheduler_end node_size wide;
    heap = ground (arith, to_int-small size small);
    pages = n;
    pages-Enough = e;
    given = ground (arith, z);
    taken = omega arith;
  }

  take_block-raw :
      (u : Manager)
      → (u.mem u.layout.scheduler_end).signature ≢ magic
      → take_block f thread size (charged u) ≡ ok (start_heap size u)
  unfolding take_block
  take_block-raw u h =
      if_false ((u.mem u.layout.scheduler_end).signature == magic) _ _ (ground (arith, h))

  charge_pages_raw :
      (n : ℕ)
      → (s.mem s.layout.scheduler_end).signature ≢ magic
      → ((charge_pages thread n s).mem (charge_pages thread n s).layout.scheduler_end).signature
        ≢ magic
  unfolding charge_pages
  charge_pages_raw n h = h

  first_charge-counts :
      s.counts thread ≡ 0
      → size + node_size < 2 ^ 31
      → s.layout.scheduler_end + node_size + size < s.layout.limit
      → s.layout.limit < 2 ^ 64
      → first_charge f thread size s
        ≡ (count_pages f s.layout.page_size 0 (size + node_size) 1 >>= λ n. ok (pay thread n s))
  unfolding first_charge
  first_charge-counts z small fits wide =
      if_true (s.counts thread == 0) _ _ ((==_iff _ _).1 z)
      ∙ if_false (leb s.layout.limit (add64 (add64 s.layout.scheduler_end node_size) size)) _ _ (
          rw
            (
              add64-small s.layout.scheduler_end node_size (omega arith),
              add64-small (s.layout.scheduler_end + node_size) size (omega arith),
            )
            (ground arith))
      ∙ ap (λ b. count_pages f s.layout.page_size 0 b 1 >>= λ n. ok (pay thread n s))
          (add64-small size node_size (omega arith))

  within : (n k page bytes : ℕ) → Enough page 0 bytes 1 n → 1 ≤ k → bytes < k * page → n ≤ k
  within n k page bytes e one h = elim (dec_lt k n) [
    | yes less ↦ elim (not_enough k page bytes (e.is_least k one less) h) [ ]
    | no ge ↦ omega arith
  ]

  -- The first request of a thread, which has no page and no node yet, starts its heap: one block
  -- of the size behind its node at the start of the region. The thread is given the least number
  -- of pages that the node and the block do not fill, and as many are taken off those left. The
  -- node and the block end before the region does, a page of a size above 0 and the request fit
  -- into an `int`, the pages left hold more than the node and the block, and there are more rounds
  -- than bytes.
  pub thread_allocate-Started :
      s.counts thread ≡ 0
      → (s.mem s.layout.scheduler_end).signature ≢ magic
      → 0 < s.layout.page_size
      → size + node_size + s.layout.page_size < 2 ^ 31
      → size + node_size + 1 < f
      → s.layout.scheduler_end + node_size + size < s.layout.limit
      → s.layout.limit < 2 ^ 64
      → 0 < s.pages_left
      → size + node_size < s.pages_left * s.layout.page_size
      → Ends (λ r. Started thread size s r.0 r.1) (thread_allocate f thread size s)
  unfolding thread_allocate
  thread_allocate-Started z raw some_page small rounds fits wide some_left room =
      rw (first_charge-counts z (omega arith) fits wide) (
        bind-assoc-Ends (take_block f thread size)
          (count_pages-Enough s.layout.page_size 0 (size + node_size) some_page small f 1
            (omega arith) (omega arith))
          (λ n e.
            let le = within n s.pages_left s.layout.page_size (size + node_size) e some_left room in
            rw
              (
                pay-charged n s le,
                take_block-raw (charge_pages thread n s) (charge_pages_raw n raw),
              )
              (ends (start_heap-Started n e le z (omega arith) (omega arith)))))
