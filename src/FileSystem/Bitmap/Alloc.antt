-- ===== src/FileSystem/Bitmap/Alloc.antt =====
-- getFreeBitMapEntry finds a free entry and takes it.
use simple_os_dev_projs.Base.{
  ℕ, zero, suc, ◌+◌, ◌/◌, ◌%◌, ◌≤◌, ◌<◌, ◌≡◌, ◌≢◌, refl, sym, ap, ◌∙◌, false, Bool-cases, inl, inr,
  none, some, ok, ◌>>=◌, Ends, ends, arith, if_true, if_false, ◌==◌, ==_iff, update, ℕ_discrete,
  dec_le,
}
use simple_os_dev_projs.FileSystem.Disk.{block_size, Block, Disk, Device, block_read, block_write}
use simple_os_dev_projs.FileSystem.Bitmap.{
  Held, Answer, entry, fetch, next_position, mark_entry, search_entry, map_offset,
  get_free_bitmap_entry,
}
use simple_os_dev_projs.FileSystem.Bitmap.Position.{find_block-quotient}

-- The byte of an entry of the map that starts at block `offset`.
abbrev pub byte_of : (offset pos : ℕ) → Disk → ℕ
byte_of offset pos d = d (offset + pos / block_size) (pos % block_size)

-- The entry was free, and taking it is all that happened to the disk.
pub record Allocated (offset : ℕ) (d : Disk) (a : Answer) (u : Disk) : Type 0 where
  pub taken : ℕ
  pub in_map : taken < 5000
  pub answer : a ≡ entry taken
  pub was_free : byte_of offset taken d ≢ 1
  pub disk_after :
      u
      ≡ update d
          (offset + taken / block_size)
          (update (d (offset + taken / block_size)) (taken % block_size) 1)

-- What the loop holds is what the disk has there.
abbrev Fresh : (offset : ℕ) → Disk → Held → Type 0
Fresh offset d none = zero ≡ zero
Fresh offset d (some (n, b)) = b ≡ d (offset + n)

test_false : (b : ℕ) → b ≢ 1 → (b == 1) ≡ false
test_false b h = ground (arith, h)

next_position-suc : (pos : ℕ) → pos ≢ 4999 → next_position pos ≡ suc pos
unfolding next_position
next_position-suc pos h = ground (arith, h)

next_position-around : (pos : ℕ) → pos ≡ 4999 → next_position pos ≡ 1
unfolding next_position
next_position-around pos h = ground (arith, h)

module _ (g : ℕ) (dev : Device) (offset : ℕ) (d : Disk) (reads : (n : ℕ) → dev.read_fails n ≡ false)
    (writes : (n : ℕ) → dev.write_fails n ≡ false) (rounds : 5000 ≤ g) where
  fetch-disk :
      (n : ℕ) (h : Held) → Fresh offset d h → fetch dev offset n h d ≡ some (d (offset + n))
  unfolding fetch block_read
  fetch-disk n none e = rw (reads (offset + n)) refl
  fetch-disk n (some (m, b)) e = elim (Bool-cases (n == m)) [
    | inl same ↦
        if_true (n == m) _ _ same
        ∙ ap some (e ∙ ap (λ k. d (offset + k)) (sym ((==_iff _ _).0 same)))
    | inr other ↦ if_false (n == m) _ _ other ∙ rw (reads (offset + n)) refl
  ]

  mark_entry-ok :
      (n pos : ℕ) (b : Block)
      → mark_entry dev offset n pos b d
        ≡ (entry pos, update d (offset + n) (update b (pos % block_size) 1))
  unfolding mark_entry block_write
  mark_entry-ok n pos b = rw (writes (offset + n), mark_entry) refl

  search_entry-free :
      (f pos : ℕ) (h : Held)
      → pos < 5000
      → Fresh offset d h
      → byte_of offset pos d ≢ 1
      → search_entry g (suc f) dev offset d pos h
        ≡ ok (
          entry pos,
          update d
              (offset + pos / block_size)
              (update (d (offset + pos / block_size)) (pos % block_size) 1),
        )
  unfolding search_entry
  search_entry-free f pos h l e free = rw (find_block-quotient g pos (omega arith)) (
      rw (fetch-disk (pos / block_size) h e, ◌>>=◌)
        (if_false (byte_of offset pos d == 1) _ _ (test_false _ free)
          ∙ ap ok (mark_entry-ok (pos / block_size) pos (d (offset + pos / block_size)))))

  search_entry-taken :
      (f pos : ℕ) (h : Held)
      → pos < 5000
      → Fresh offset d h
      → byte_of offset pos d ≡ 1
      → search_entry g (suc f) dev offset d pos h
        ≡ search_entry g f dev offset d
            (next_position pos)
            (some (pos / block_size, d (offset + pos / block_size)))
  unfolding search_entry
  search_entry-taken f pos h l e busy = rw (find_block-quotient g pos (omega arith)) (
      rw (fetch-disk (pos / block_size) h e, ◌>>=◌)
        (if_true (byte_of offset pos d == 1) _ _ ((==_iff _ _).1 busy)))

  found :
      (f pos : ℕ) (h : Held)
      → pos < 5000
      → Fresh offset d h
      → byte_of offset pos d ≢ 1
      → Ends (λ r. Allocated offset d r.0 r.1) (search_entry g (suc f) dev offset d pos h)
  found f pos h l e free =
      rw (search_entry-free f pos h l e free) (
        ends
          (record { taken = pos; in_map = l; answer = refl; was_free = free; disk_after = refl }))

  -- From an entry up to a free one.
  forward :
      (f pos k : ℕ) (h : Held)
      → pos ≤ k
      → k < 5000
      → k < f + pos
      → Fresh offset d h
      → byte_of offset k d ≢ 1
      → Ends (λ r. Allocated offset d r.0 r.1) (search_entry g f dev offset d pos h)
  forward zero pos k h le l less e free = ground arith
  forward (suc f) pos k h le l less e free = elim (ℕ_discrete (byte_of offset pos d) 1) [
    | no ne ↦ found f pos h (omega arith) e ne
    | yes busy ↦
        let ne = λ (q : pos ≡ k). free (ap (λ j. byte_of offset j d) (sym q) ∙ busy) in
        rw (search_entry-taken f pos h (omega arith) e busy) (
          rw (next_position-suc pos (omega (arith, ne)))
            (forward f (suc pos) k _ (omega (arith, ne)) l (omega arith) refl free))
  ]

  -- Around the end of the map to a free entry.
  around :
      (f pos k : ℕ) (h : Held)
      → pos < 5000
      → 0 < k
      → k < pos
      → 5000 + k ≤ f + pos
      → Fresh offset d h
      → byte_of offset k d ≢ 1
      → Ends (λ r. Allocated offset d r.0 r.1) (search_entry g f dev offset d pos h)
  around zero pos k h l some_k less enough e free = ground arith
  around (suc f) pos k h l some_k less enough e free = elim (ℕ_discrete (byte_of offset pos d) 1) [
    | no ne ↦ found f pos h l e ne
    | yes busy ↦ rw (search_entry-taken f pos h l e busy) (elim (ℕ_discrete pos 4999) [
      | yes q ↦
          rw (next_position-around pos q)
            (forward f 1 k _ (omega arith) (omega arith) (omega (arith, q)) refl free)
      | no nq ↦
          rw (next_position-suc pos nq)
            (around f (suc pos) k _ (omega arith) some_k (omega arith) (omega arith) refl free)
    ])
  ]

  search_entry-Allocated :
      (f pos k : ℕ)
      → pos < 5000
      → 0 < k
      → k < 5000
      → 5000 ≤ f
      → byte_of offset k d ≢ 1
      → Ends (λ r. Allocated offset d r.0 r.1) (search_entry g f dev offset d pos none)
  search_entry-Allocated f pos k l some_k lk rf free = elim (dec_le pos k) [
    | yes le ↦ forward f pos k none le lk (omega arith) refl free
    | no gt ↦ around f pos k none l some_k (omega arith) (omega arith) refl free
  ]

-- If some entry of the map other than entry 0 is free, and reads and writes of the disk succeed,
-- the search from any of the 5000 entries ends with an entry that was free, marks it, and changes
-- nothing else on the disk. 5000 rounds are enough for either loop.
pub get_free_bitmap_entry-Allocated :
    (g f : ℕ) (dev : Device) (type start : ℕ) (d : Disk)
    → ((n : ℕ) → dev.read_fails n ≡ false)
    → ((n : ℕ) → dev.write_fails n ≡ false)
    → 5000 ≤ g
    → 5000 ≤ f
    → start < 5000
    → (k : ℕ) → 0 < k
    → k < 5000
    → byte_of (map_offset type) k d ≢ 1
    → Ends (λ r. Allocated (map_offset type) d r.0 r.1) (get_free_bitmap_entry g f dev type start d)
unfolding get_free_bitmap_entry
get_free_bitmap_entry-Allocated g f dev type start d reads writes rg rf l k some_k lk free =
    search_entry-Allocated g dev (map_offset type) d reads writes rg f start k l some_k lk rf free
