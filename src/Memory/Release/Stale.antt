-- ===== src/Memory/Release/Stale.antt =====
-- What becomes of the block behind one that was merged into its predecessor.
use simple_os_dev_projs.Base.{
  ℕ, suc, ◌+◌, ◌*◌, Ends-bind, ◌≤◌, ◌<◌, ◌^◌, ◌≡◌, ◌≢◌, arith, ◌>>=◌, update, Ends, ends,
}
use simple_os_dev_projs.Memory.Region.{Addr, null, Mem, node_size, magic}
use simple_os_dev_projs.Memory.Release.{absorb, region_deallocate}
use simple_os_dev_projs.Memory.Release.Refuse.{
  absorb-prev, absorb_self, absorb_ne, merge_back-first, merge_back-step, merge_forward-stop,
  delete_last-keeps, merged-small, region_deallocate-accepts,
}

-- Three blocks and a fourth behind them, at the addresses `a`, `b`, `c` and `d`.
pub record Row (m : Mem) (a b c d x y z : ℕ) : Type 0 where
  pub pos : 0 < a
  pub at_b : b ≡ a + node_size + x
  pub at_c : c ≡ b + node_size + y
  pub at_d : d ≡ c + node_size + z
  pub small : x + 2 * y + z + 3 * node_size < 2 ^ 31
  pub sig_b : (m b).signature ≡ magic
  pub sig_c : (m c).signature ≡ magic
  pub free_a : (m a).in_use ≡ 0
  pub used_b : (m b).in_use ≢ 0
  pub used_c : (m c).in_use ≢ 0
  pub used_d : (m d).in_use ≢ 0
  pub cap_a : (m a).capacity ≡ x
  pub cap_b : (m b).capacity ≡ y
  pub cap_c : (m c).capacity ≡ z
  pub prev_a : (m a).prev ≡ null
  pub prev_b : (m b).prev ≡ a
  pub prev_c : (m c).prev ≡ b
  pub next_b : (m b).next ≡ c
  pub next_c : (m c).next ≡ d

abbrev freed : Mem → Addr → Mem
freed m t = update m t (record (m t) { in_use = 0 })

-- The nodes at `a`, `b`, `c` and `d` once the second block is freed.
record FirstMerged (m : Mem) (a b c d x y z : ℕ) (m' : Mem) : Type 0 where
  free_a : (m' a).in_use ≡ 0
  free_b : (m' b).in_use ≡ 0
  cap_a : (m' a).capacity ≡ x + node_size + y
  cap_b : (m' b).capacity ≡ y
  prev_a : (m' a).prev ≡ null
  prev_b : (m' b).prev ≡ a
  next_a : (m' a).next ≡ c
  same_c : m' c ≡ m c
  same_d : m' d ≡ m d

module _ (m : Mem) (a b c d x y z : ℕ) (r : Row m a b c d x y z) where
  open r use {pos, at_b, at_c, at_d, small}

  at_freed : (freed m b b).prev ≡ a
  at_freed = ground (arith, r.prev_b)

  absorb-FirstMerged : FirstMerged m a b c d x y z (absorb b (freed m b))
  absorb-FirstMerged =
      let n = absorb b (freed m b) in
      let ea = absorb-prev b a (freed m b) at_freed (omega arith) in
      let eb = absorb_self b a (freed m b) at_freed (omega arith) in
      let ec = absorb_ne b a c (freed m b) at_freed (omega arith) (omega arith) in
      let ed = absorb_ne b a d (freed m b) at_freed (omega arith) (omega arith) in
      record {
        free_a = ground (arith, ea, r.free_a);
        free_b = ground (arith, eb);
        cap_a = ground (arith, ea, r.cap_a, r.cap_b, merged-small x y (omega arith));
        cap_b = ground (arith, eb, r.cap_b);
        prev_a = ground (arith, ea, r.prev_a);
        prev_b = ground (arith, eb, r.prev_b);
        next_a = ground (arith, ea, r.next_b);
        same_c = ground (arith, ec);
        same_d = ground (arith, ed);
      }

  module _ (lo hi : Addr) (low : lo ≤ a) (high : c + node_size < hi) (word : hi ≤ 2 ^ 64) where
    first_free :
        (f : ℕ)
        → Ends
            (FirstMerged m a b c d x y z)
            (region_deallocate (suc (suc f)) lo hi (b + node_size) m)
    first_free f =
        let n = absorb b (freed m b) in
        let g = absorb-FirstMerged in
        rw
          (
            region_deallocate-accepts (suc (suc f)) lo hi b m (omega arith) (omega arith) word
                r.sig_b r.used_b,
            merge_back-step (suc f) b (freed m b) (ground (arith, r.prev_b))
                (ground (arith, r.prev_b, r.free_a)),
            at_freed,
            merge_back-first f a n g.prev_a,
            merge_forward-stop (suc f) a n (ground (arith, g.next_a, g.same_c, r.used_c)),
            delete_last-keeps a n (ground (arith, g.next_a)),
          )
          (ends g)

    module _ (m1 : Mem) (g : FirstMerged m a b c d x y z m1) where
      m2 : Mem
      m2 = absorb c (freed m1 c)

      prev_freed : (freed m1 c c).prev ≡ b
      prev_freed = ground (arith, g.same_c, r.prev_c)

      record Between : Type 0 where
        prev : (m2 b).prev ≡ a
        free : (m2 a).in_use ≡ 0
        first : (m2 a).prev ≡ null
        cap_a : (m2 a).capacity ≡ x + node_size + y
        cap_b : (m2 b).capacity ≡ y + node_size + z
        next_b : (m2 b).next ≡ d
        used_d : (m2 d).in_use ≢ 0

      between : Between
      unfolding m2
      between =
          let eb = absorb-prev c b (freed m1 c) prev_freed (omega arith) in
          let ea = absorb_ne c b a (freed m1 c) prev_freed (omega arith) (omega arith) in
          let ed = absorb_ne c b d (freed m1 c) prev_freed (omega arith) (omega arith) in
          record {
            prev = ground (arith, eb, g.prev_b);
            free = ground (arith, ea, g.free_a);
            first = ground (arith, ea, g.prev_a);
            cap_a = ground (arith, ea, g.cap_a);
            cap_b = ground (arith, eb, g.cap_b, g.same_c, r.cap_c, merged-small y z (omega arith));
            next_b = ground (arith, eb, g.same_c, r.next_c);
            used_d = ground (arith, ed, g.same_d, r.used_d);
          }

      second_free :
          (f : ℕ)
          → Ends
              (λ m'.
                ((m' a).in_use ≡ 0)
                × ((m' a).next ≡ d)
                × (a + node_size + (m' a).capacity ≡ d + node_size + y))
              (region_deallocate (suc (suc (suc f))) lo hi (c + node_size) m1)
      unfolding m2
      second_free f =
          let w = between in
          let ea = absorb-prev b a m2 w.prev (omega arith) in
          let ed = absorb_ne b a d m2 w.prev (omega arith) (omega arith) in
          let cap : (absorb b m2 a).capacity ≡ x + node_size + y + node_size + (y + node_size + z) =
            ground (
              arith,
              ea,
              w.cap_a,
              w.cap_b,
              merged-small (x + node_size + y) (y + node_size + z) (omega arith),
            ) in
          rw
            (
              region_deallocate-accepts (suc (suc (suc f))) lo hi c m1 (omega arith) high word
                  (ground (arith, g.same_c, r.sig_c)) (ground (arith, g.same_c, r.used_c)),
              merge_back-step (suc (suc f)) c (freed m1 c) (ground (arith, prev_freed))
                  (ground (arith, prev_freed, g.free_b)),
              prev_freed,
              merge_back-step (suc f) b m2 (ground (arith, w.prev))
                  (ground (arith, w.prev, w.free)),
              w.prev,
              merge_back-first f a (absorb b m2) (ground (arith, ea, w.first)),
              merge_forward-stop (suc (suc f)) a (absorb b m2)
                  (ground (arith, ea, w.next_b, ed, w.used_d)),
              delete_last-keeps a (absorb b m2) (ground (arith, ea, w.next_b)),
            )
            (ends (ground (arith, ea, w.free), ground (arith, ea, w.next_b), omega (arith, cap)))

    -- Four linked blocks lie in the region, the first free and the others in use, and their
    -- capacities together with the second's fit into an `int`. Freeing the second and then the
    -- third leaves a free first block whose capacity counts the second one twice. It reaches past
    -- the node of the fourth block and into its bytes, by as many as the second holds.
    pub stale_predecessor :
        (f : ℕ)
        → Ends
            (λ m'.
              ((m' a).in_use ≡ 0)
              × ((m' a).next ≡ d)
              × (a + node_size + (m' a).capacity ≡ d + node_size + y))
            (region_deallocate (suc (suc (suc f))) lo hi (b + node_size) m
              >>= region_deallocate (suc (suc (suc f))) lo hi (c + node_size))
    stale_predecessor f = Ends-bind (first_free (suc f)) λ m1 g. second_free m1 g f
