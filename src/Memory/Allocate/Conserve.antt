-- ===== src/Memory/Allocate/Conserve.antt =====
-- The pages that myallocate takes from the pages left are those it gives the thread.
use simple_os_dev_projs.Base.{
  ℕ, ◌+◌, ◌-◌, ◌≤◌, ◌<◌, ◌≡◌, ◌≢◌, refl, ◌∙◌, ◌⊎◌, inl, inr, Bool-cases, ok, ◌>>=◌, ◌==◌, Ends,
  ends, arith, leb, ltb, if_true, if_false, ◌^◌, ◌%◌, Ends-bind, Ends-weaken, length, List, ==_iff,
  sym, ap,
}
use simple_os_dev_projs.Memory.Word.{sext, add64, add64-small}
use simple_os_dev_projs.Memory.Region.{Addr, null, node_size, magic, Found, reuse, last, find_fit}
use simple_os_dev_projs.Memory.Region.Blocks.{Block, Blocks}
use simple_os_dev_projs.Memory.Region.Find.{find_fit-first_fit, first_fit}
use simple_os_dev_projs.Memory.Allocate.Count.{count_pages-Enough}
use simple_os_dev_projs.Memory.Allocate.{
  Manager, charge_pages, Charge, denied, charged, pay, first_charge, start_heap, put_node, finish,
  extend_heap, place, take_block, thread_allocate,
}

-- The thread and the rest have as many pages together as before, and no other thread's number changed.
pub record Balanced (thread : ℕ) (s u : Manager) : Type 0 where
  pub same_total : u.counts thread + u.pages_left ≡ s.counts thread + s.pages_left
  pub same_others : (t : ℕ) → t ≢ thread → u.counts t ≡ s.counts t

Balanced-refl : (thread : ℕ) (s : Manager) → Balanced thread s s
Balanced-refl thread s = record { same_total = refl; same_others = λ t ne. refl }

Balanced-trans :
    {thread : ℕ} {s u v : Manager} → Balanced thread s u → Balanced thread u v → Balanced thread s v
Balanced-trans h k = record {
  same_total = k.same_total ∙ h.same_total;
  same_others = λ t ne. k.same_others t ne ∙ h.same_others t ne;
}

data Settles (thread : ℕ) (s : Manager) : Charge → Type 0 where
  on_denied : {u : Manager} → Balanced thread s u → Settles thread s (denied u)
  on_charged :
      {u : Manager}
      → Balanced thread s u
      → u.mem ≡ s.mem
      → u.layout ≡ s.layout
      → Settles thread s (charged u)

charge_pages-Balanced :
    (thread n : ℕ) (s : Manager) → n ≤ s.pages_left → Balanced thread s (charge_pages thread n s)
unfolding charge_pages
charge_pages-Balanced thread n s h = record {
  same_total = ground arith;
  same_others = λ t ne. ground arith;
}

charge_pages_same :
    (thread n : ℕ) (s : Manager)
    → ((charge_pages thread n s).mem ≡ s.mem) × ((charge_pages thread n s).layout ≡ s.layout)
unfolding charge_pages
charge_pages_same thread n s = (refl, refl)

pay-Settles : (thread n : ℕ) (s : Manager) → Settles thread s (pay thread n s)
unfolding pay
pay-Settles thread n s = elim (Bool-cases (ltb s.pages_left n)) [
  | inl h ↦ rw (if_true (ltb s.pages_left n) _ _ h) (on_denied (Balanced-refl thread s))
  | inr h ↦ rw (if_false (ltb s.pages_left n) _ _ h) (
      on_charged (charge_pages-Balanced thread n s (ground arith)) (charge_pages_same thread n s).0
        (charge_pages_same thread n s).1)
]

put_node-Balanced :
    (thread size : ℕ) (p new : Addr) (s : Manager) → Balanced thread s (put_node size p new s).1
unfolding put_node
put_node-Balanced thread size p new s = record { same_total = refl; same_others = λ t ne. refl }

start_heap-Balanced : (thread size : ℕ) (s : Manager) → Balanced thread s (start_heap size s).1
unfolding start_heap
start_heap-Balanced thread size s = record { same_total = refl; same_others = λ t ne. refl }

finish-Balanced :
    (thread size : ℕ) (p new : Addr) (s : Manager) (c : Charge)
    → Settles thread s c
    → Balanced thread s (finish size p new c).1
unfolding finish
finish-Balanced thread size p new s (denied u) (on_denied b) = b
finish-Balanced thread size p new s (charged u) (on_charged b m l) =
    Balanced-trans b (put_node-Balanced thread size p new u)

-- Pages have a size, the request and a page fit into an `int`, and the rounds suffice for it.
module _ (f thread size : ℕ) (s : Manager) (some_page : 0 < s.layout.page_size)
    (small : size + node_size + s.layout.page_size < 2 ^ 31)
    (rounds : size + node_size + 1 < f) where
  first_charge-Settles : Ends (Settles thread s) (first_charge f thread size s)
  unfolding first_charge
  first_charge-Settles = elim (Bool-cases (s.counts thread == 0)) [
    | inr h ↦
        rw (if_false (s.counts thread == 0) _ _ h)
          (ends (on_charged (Balanced-refl thread s) refl refl))
    | inl h ↦
        rw (if_true (s.counts thread == 0) _ _ h)
          (elim (Bool-cases
            (leb s.layout.limit (add64 (add64 s.layout.scheduler_end node_size) size))) [
              | inl k ↦
                  rw
                    (if_true
                      (leb s.layout.limit (add64 (add64 s.layout.scheduler_end node_size) size)) _ _
                      k)
                    (ends (on_denied (Balanced-refl thread s)))
              | inr k ↦
                  rw
                    (
                      if_false
                          (leb s.layout.limit (add64 (add64 s.layout.scheduler_end node_size) size))
                          _ _ k,
                      add64-small size node_size (omega arith),
                    )
                    (Ends-bind
                      (count_pages-Enough s.layout.page_size 0 (size + node_size) some_page small f
                        1 (omega arith) (omega arith))
                      (λ n e. ends (pay-Settles thread n s)))
            ])
  ]

  extend_heap-Balanced :
      (p : Addr) (u : Manager)
      → u.layout ≡ s.layout
      → Ends (λ r. Balanced thread u r.1) (extend_heap f thread size p u)
  unfolding extend_heap
  extend_heap-Balanced p u same =
      let new = add64 (add64 p node_size) (sext (u.mem p).capacity) in
      elim (Bool-cases (leb u.layout.limit (add64 (add64 new node_size) size))) [
        | inl k ↦
            rw (if_true (leb u.layout.limit (add64 (add64 new node_size) size)) _ _ k)
              (ends (Balanced-refl thread u))
        | inr k ↦ rw (if_false (leb u.layout.limit (add64 (add64 new node_size) size)) _ _ k) (
            Ends-bind
              (count_pages-Enough u.layout.page_size
                (u.layout.page_size - add64 new node_size % u.layout.page_size) size
                (rw same some_page) (rw same (omega arith)) f 0 (omega arith) (omega arith))
              (λ n e. ends (finish-Balanced thread size p new u _ (pay-Settles thread n u))))
      ]

  place-Balanced :
      (r : Found) (u : Manager)
      → u.layout ≡ s.layout
      → Ends (λ q. Balanced thread u q.1) (place f thread size u r)
  unfolding place
  place-Balanced (reuse t) u same = ends (record { same_total = refl; same_others = λ t ne. refl })
  place-Balanced (last p) u same = extend_heap-Balanced p u same

  signature_at :
      (u : Manager)
      → u.mem ≡ s.mem
      → u.layout ≡ s.layout
      → (u.mem u.layout.scheduler_end).signature ≡ (s.mem s.layout.scheduler_end).signature
  signature_at u m l =
      ap (λ g. (g u.layout.scheduler_end).signature) m
      ∙ ap (λ g. (s.mem g.scheduler_end).signature) l

  found :
      (b : Block) (bs : List Block) (u : Manager)
      → u.mem ≡ s.mem
      → u.layout ≡ s.layout
      → Blocks s.mem null s.layout.scheduler_end b bs
      → 0 < s.layout.scheduler_end
      → length bs + 1 < f
      → find_fit f u.mem size u.layout.scheduler_end u.layout.scheduler_end
        ≡ ok (first_fit size s.layout.scheduler_end b bs)
  found b bs u m l heap pos below =
      rw (m, l)
        (find_fit-first_fit f s.mem size null s.layout.scheduler_end s.layout.scheduler_end b bs
          heap pos below)

  searched :
      (b : Block) (bs : List Block) (u : Manager)
      → u.mem ≡ s.mem
      → u.layout ≡ s.layout
      → Blocks s.mem null s.layout.scheduler_end b bs
      → 0 < s.layout.scheduler_end
      → length bs + 1 < f
      → Ends
          (λ q. Balanced thread u q.1)
          (find_fit f u.mem size u.layout.scheduler_end u.layout.scheduler_end
            >>= place f thread size u)
  searched b bs u m l heap pos below = rw (found b bs u m l heap pos below) (place-Balanced _ u l)

  take_block-Balanced :
      (b : Block) (bs : List Block) (c : Charge)
      → Settles thread s c
      → ((s.mem s.layout.scheduler_end).signature ≢ magic)
        ⊎ Blocks s.mem null s.layout.scheduler_end b bs
      → 0 < s.layout.scheduler_end
      → length bs + 1 < f
      → Ends (λ r. Balanced thread s r.1) (take_block f thread size c)
  unfolding take_block
  take_block-Balanced b bs (denied u) (on_denied h) heap pos below = ends h
  take_block-Balanced b bs (charged u) (on_charged h m l) heap pos below =
      elim (Bool-cases ((u.mem u.layout.scheduler_end).signature == magic)) [
        | inr k ↦
            rw (if_false ((u.mem u.layout.scheduler_end).signature == magic) _ _ k)
              (ends (Balanced-trans h (start_heap-Balanced thread size u)))
        | inl k ↦
            rw (if_true ((u.mem u.layout.scheduler_end).signature == magic) _ _ k) (elim heap [
              | inl raw ↦ elim (raw (sym (signature_at u m l) ∙ (==_iff _ _).0 k)) [ ]
              | inr blocks ↦
                  Ends-weaken (searched b bs u m l blocks pos below) (λ r g. Balanced-trans h g)
            ])
      ]

  -- A thread's request ends, whatever comes of it, and the pages that are left and those of the
  -- thread are as many together as before, while no other thread's number changes. The heap of the
  -- thread has not been started or is a row of blocks from an address above 0, pages have a size
  -- above 0, the request and a page fit into an `int`, and the rounds suffice for both loops.
  pub thread_allocate-Balanced :
      (b : Block) (bs : List Block)
      → ((s.mem s.layout.scheduler_end).signature ≢ magic)
        ⊎ Blocks s.mem null s.layout.scheduler_end b bs
      → 0 < s.layout.scheduler_end
      → length bs + 1 < f
      → Ends (λ r. Balanced thread s r.1) (thread_allocate f thread size s)
  unfolding thread_allocate
  thread_allocate-Balanced b bs heap pos below =
      Ends-bind first_charge-Settles (λ c h. take_block-Balanced b bs c h heap pos below)
