-- ===== src/Memory/Release/Refuse.antt =====
-- The steps of mydeallocate one at a time.
use simple_os_dev_projs.Base.{
  ℕ, suc, ◌+◌, ◌≤◌, ◌<◌, ◌^◌, ◌≡◌, ◌≢◌, ◌∙◌, false, ◌⊎◌, arith, ok, ◌>>=◌, ◌==◌, if_true, if_false,
  update,
}
use simple_os_dev_projs.Memory.Word.{sext-small, to_int-small}
use simple_os_dev_projs.Memory.Region.{Addr, null, Mem, node_size, magic}
use simple_os_dev_projs.Memory.Release.{
  merged, absorb, merge_back, merge_forward, delete_last, node_of, is_refused, region_deallocate,
}

-- A pointer outside the region, one with no node in front of it, and one whose block is free already
-- are refused: memory is as it was.
pub region_deallocate-refuses :
    (f : ℕ) (lo hi ptr : Addr) (m : Mem)
    → (ptr < lo)
      ⊎ (hi ≤ ptr)
      ⊎ ((m (node_of ptr)).signature ≢ magic)
      ⊎ ((m (node_of ptr)).in_use ≡ 0)
    → region_deallocate f lo hi ptr m ≡ ok m
unfolding region_deallocate is_refused
region_deallocate-refuses f lo hi ptr m h = if_true (is_refused lo hi ptr m) (ok m) _ (ground arith)

pub node_of-add : (c : Addr) → c + node_size < 2 ^ 64 → node_of (c + node_size) ≡ c
unfolding node_of
node_of-add c h = omega arith

pub merge_back-first :
    (f : ℕ) (c : Addr) (m : Mem) → (m c).prev ≡ null → merge_back (suc f) c m ≡ ok (c, m)
unfolding merge_back
merge_back-first f c m e = ground arith

pub merge_back-stop :
    (f : ℕ) (c : Addr) (m : Mem) → (m (m c).prev).in_use ≢ 0 → merge_back (suc f) c m ≡ ok (c, m)
unfolding merge_back
merge_back-stop f c m ne = ground arith

pub merge_back-step :
    (f : ℕ) (c : Addr) (m : Mem)
    → (m c).prev ≢ null
    → (m (m c).prev).in_use ≡ 0
    → merge_back (suc f) c m ≡ merge_back f (m c).prev (absorb c m)
unfolding merge_back
merge_back-step f c m ne e = ground arith

pub merge_forward-last :
    (f : ℕ) (c : Addr) (m : Mem) → (m c).next ≡ null → merge_forward (suc f) c m ≡ ok m
unfolding merge_forward
merge_forward-last f c m e = ground arith

pub merge_forward-stop :
    (f : ℕ) (c : Addr) (m : Mem) → (m (m c).next).in_use ≢ 0 → merge_forward (suc f) c m ≡ ok m
unfolding merge_forward
merge_forward-stop f c m ne = ground arith

pub delete_last-keeps : (c : Addr) (m : Mem) → (m c).next ≢ null → delete_last c m ≡ m
unfolding delete_last
delete_last-keeps c m ne = if_false ((m c).next == null) _ m (ground arith)

pub merged-small : (c d : ℕ) → c + d + node_size < 2 ^ 31 → merged c d ≡ c + node_size + d
unfolding merged
merged-small c d h = rw (
  sext-small c (omega arith),
  sext-small d (omega arith),
  to_int-small (c + node_size + d) (omega arith),
)

accepted :
    (lo hi c : Addr) (m : Mem)
    → lo ≤ c + node_size
    → c + node_size < hi
    → hi ≤ 2 ^ 64
    → (m c).signature ≡ magic
    → (m c).in_use ≢ 0
    → is_refused lo hi (c + node_size) m ≡ false
unfolding is_refused
accepted lo hi c m low high word sig used = rw (node_of-add c (omega arith)) (ground arith)

-- What is left to do once a pointer is accepted.
pub region_deallocate-accepts :
    (f : ℕ) (lo hi c : Addr) (m : Mem)
    → lo ≤ c + node_size
    → c + node_size < hi
    → hi ≤ 2 ^ 64
    → (m c).signature ≡ magic
    → (m c).in_use ≢ 0
    → region_deallocate f lo hi (c + node_size) m ≡ (
        merge_back f c (update m c (record (m c) { in_use = 0 })) >>= λ r.
        merge_forward f r.0 r.1 >>= λ m2. ok (delete_last r.0 m2))
unfolding region_deallocate
region_deallocate-accepts f lo hi c m low high word sig used =
    if_false (is_refused lo hi (c + node_size) m) (ok m) _
      (accepted lo hi c m low high word sig used)
    ∙ rw (node_of-add c (omega arith))

-- The two nodes that change when one is absorbed.
pub absorb-prev :
    (c p : Addr) (m : Mem)
    → (m c).prev ≡ p
    → p ≢ c
    → absorb c m p
      ≡ record (m p) { next = (m c).next; capacity = merged (m p).capacity (m c).capacity }
unfolding absorb
absorb-prev c p m e ne = rw e (ground arith)

pub absorb_self :
    (c p : Addr) (m : Mem) → (m c).prev ≡ p → p ≢ c → absorb c m c ≡ record (m c) { signature = 0 }
unfolding absorb
absorb_self c p m e ne = rw e (ground arith)

pub absorb_ne : (c p t : Addr) (m : Mem) → (m c).prev ≡ p → t ≢ p → t ≢ c → absorb c m t ≡ m t
unfolding absorb
absorb_ne c p t m e ne ne' = rw e (ground arith)
