-- ===== src/FileSystem/Bitmap/Frame.antt =====
-- getFreeBitMapEntry writes to the two maps only, whatever it finds.
use simple_os_dev_projs.Base.{
  ℕ, zero, suc, ◌+◌, ◌*◌, ◌-◌, ◌≤◌, ◌<◌, ◌≡◌, refl, inl, inr, Bool-cases, Option, none, some, ok,
  arith, update_ne, ltb, ◌==◌, Leaves, left, out_of_rounds, Leaves-bind, Leaves-value, ◌%◌, ◌⊎◌,
}
use simple_os_dev_projs.FileSystem.Disk.{block_size, Block, Disk, Device, block_write}
use simple_os_dev_projs.FileSystem.Bitmap.{
  Answer, find_block, Held, fetch, next_position, mark_entry, search_entry, map_offset,
  get_free_bitmap_entry,
}

-- The blocks behind the maps are as before.
abbrev pub Untouched : Disk → Disk → Type 0
Untouched d u = (m : ℕ) → 20 ≤ m → u m ≡ d m

find_block-below :
    (f bytes block : ℕ)
    → block_size * (block - 1) ≤ bytes
    → Leaves (λ b. block_size * b ≤ bytes) (find_block f bytes block)
unfolding find_block
find_block-below zero bytes block h = out_of_rounds
find_block-below (suc f) bytes block h = elim (Bool-cases (ltb bytes (block_size * block))) [
  | inl e ↦ rw e (left h)
  | inr e ↦ rw e (find_block-below f bytes (suc block) (ground (arith, e)))
]

mark_entry-Untouched :
    (dev : Device) (offset block_in pos : ℕ) (temp : Block) (d : Disk)
    → offset ≤ 10
    → block_in < 10
    → Untouched d (mark_entry dev offset block_in pos temp d).1
unfolding mark_entry block_write
mark_entry-Untouched dev offset block_in pos temp d le less m far =
    elim (Bool-cases (dev.write_fails (offset + block_in))) [
      | inl e ↦ rw (e, mark_entry) refl
      | inr e ↦ rw (e, mark_entry) (update_ne d (offset + block_in) _ m (omega arith))
    ]

next_position-small : (pos : ℕ) → pos < 5000 → next_position pos < 5000
unfolding next_position
next_position-small pos h = ground arith

fetched : (x : Option Block) → (x ≡ none) ⊎ ((temp : Block) × (x ≡ some temp))
fetched none = inl refl
fetched (some temp) = inr (temp, refl)

search_entry-Untouched :
    (g f : ℕ) (dev : Device) (offset : ℕ) (d : Disk) (pos : ℕ) (held : Held)
    → offset ≤ 10
    → pos < 5000
    → Leaves (λ r. Untouched d r.1) (search_entry g f dev offset d pos held)
unfolding search_entry
search_entry-Untouched g zero dev offset d pos held le small = out_of_rounds
search_entry-Untouched g (suc f) dev offset d pos held le small =
    Leaves-bind (find_block-below g pos 1 (omega arith)) λ b below.
      elim (fetched (fetch dev offset b held d)) [
        | inl e ↦ rw e (left (λ m far. refl))
        | inr (temp, e) ↦ elim (Bool-cases (temp (pos % block_size) == 1)) [
          | inl taken ↦
              rw (e, taken)
                (search_entry-Untouched g f dev offset d (next_position pos) (some (b, temp)) le
                  (next_position-small pos small))
          | inr free ↦
              rw (e, free) (left (mark_entry-Untouched dev offset b pos temp d le (omega arith)))
        ]
      ]

-- A search that ends with a result leaves the blocks behind the maps.
pub get_free_bitmap_entry-Untouched :
    (g f : ℕ) (dev : Device) (type start : ℕ) (d : Disk) (r : Answer × Disk)
    → start < 5000
    → get_free_bitmap_entry g f dev type start d ≡ ok r
    → Untouched d r.1
unfolding get_free_bitmap_entry map_offset
get_free_bitmap_entry-Untouched g f dev type start d r small e =
    Leaves-value (λ r. Untouched d r.1) e
      (search_entry-Untouched g f dev (map_offset type) d start none (ground arith) small)
