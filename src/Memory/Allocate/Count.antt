-- ===== src/Memory/Allocate/Count.antt =====
-- The page-counting loops of myallocate.
use simple_os_dev_projs.Base.{
  ℕ, zero, suc, ◌+◌, ◌*◌, ◌^◌, ◌≤◌, ◌<◌, ◌≡◌, true, false, ok, Ends, ends, Ends-weaken, arith, leb,
  if_true, if_false, dec_le, ℕ_discrete,
}
use simple_os_dev_projs.Memory.Word.{sext, sext-small, to_int, to_int-small}
use simple_os_dev_projs.Memory.Allocate.{count_pages}

-- `n` is the least number from `from` on with which the pages reach beyond the bytes.
pub record Enough (page space bytes from n : ℕ) : Type 0 where
  pub reaches : bytes < n * page + space
  pub at_least : from ≤ n
  pub is_least : (k : ℕ) → from ≤ k → k < n → k * page + space ≤ bytes

as_int : (x : ℕ) → x < 2 ^ 31 → sext (to_int x) ≡ x
as_int x h = rw (to_int-small x h) (sext-small x h)

count_pages-more :
    (f page space bytes n : ℕ)
    → leb (sext (to_int (n * page + space))) bytes ≡ true
    → count_pages (suc f) page space bytes n ≡ count_pages f page space bytes (suc n)
unfolding count_pages
count_pages-more f page space bytes n h = if_true _ _ _ h

count_pages-done :
    (f page space bytes n : ℕ)
    → leb (sext (to_int (n * page + space))) bytes ≡ false
    → count_pages (suc f) page space bytes n ≡ ok n
unfolding count_pages
count_pages-done f page space bytes n h = if_false _ _ _ h

leb-true : (a b : ℕ) → a ≤ b → leb a b ≡ true
leb-true a b h = ground arith

leb-false : (a b : ℕ) → b < a → leb a b ≡ false
leb-false a b h = ground arith

module _ (page space bytes : ℕ) (some_page : 0 < page) (small : bytes + page < 2 ^ 31) where
  counted :
      (f n : ℕ)
      → n * page + space ≤ bytes + page
      → suc bytes < f + (n * page + space)
      → 0 < f
      → Ends (Enough page space bytes n) (count_pages f page space bytes n)
  counted zero n at less pos = ground arith
  counted (suc f) n at less pos = elim (dec_le (n * page + space) bytes) [
    | yes le ↦
        rw
          (count_pages-more f page space bytes n
            (rw (as_int (n * page + space) (omega arith)) (leb-true _ _ le)))
          (Ends-weaken (counted f (suc n) (omega arith) (omega arith) (omega arith)) (λ k e.
            record {
              reaches = e.reaches;
              at_least = omega (arith, e.at_least);
              is_least = λ j a b. elim (ℕ_discrete j n) [
                | yes same ↦ rw same le
                | no ne ↦ e.is_least j (omega arith) b
              ];
            }))
    | no gt ↦
        rw
          (count_pages-done f page space bytes n
            (rw (as_int (n * page + space) (omega arith)) (leb-false _ _ (omega arith))))
          (ends (record {
            reaches = omega arith;
            at_least = omega arith;
            is_least = λ k a b. ground arith;
          }))
  ]

  -- With a page size above 0, and bytes and a page that fit into an `int`, the counting loop ends,
  -- and its number is the least from where it started with which the pages reach beyond the bytes.
  -- It starts at most one page beyond the bytes, and two rounds more than there are bytes are
  -- enough.
  pub count_pages-Enough :
      (f n : ℕ)
      → n * page + space ≤ bytes + page
      → suc bytes < f
      → Ends (Enough page space bytes n) (count_pages f page space bytes n)
  count_pages-Enough f n at less = counted f n at (omega arith) (omega arith)
