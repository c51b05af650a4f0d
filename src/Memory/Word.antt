-- ===== src/Memory/Word.antt =====
-- Sizes and addresses of 64 bits, and the `int` capacities of the allocation nodes. An `int` is kept
-- as its bit pattern below 2 ^ 32.
use simple_os_dev_projs.Base.{ℕ, ◌+◌, ◌-◌, ◌%◌, ◌^◌, ◌<◌, ◌≡◌, arith, ltb, if◌then◌else◌}

-- The conversion of an `int` to 64 bits.
unfoldable pub sext : ℕ → ℕ
sext c = if ltb c (2 ^ 31) then c else c + (2 ^ 64 - 2 ^ 32)

-- Address arithmetic wraps.
unfoldable pub add64 : ℕ → ℕ → ℕ
add64 a b = (a + b) % 2 ^ 64

-- A `size_t` that is stored in an `int`.
unfoldable pub to_int : ℕ → ℕ
to_int x = x % 2 ^ 32

pub sext-small : (c : ℕ) → c < 2 ^ 31 → sext c ≡ c
unfolding sext
sext-small c h = ground arith

pub to_int-small : (c : ℕ) → c < 2 ^ 31 → to_int c ≡ c
unfolding to_int
to_int-small c h = omega arith

pub add64-small : (a b : ℕ) → a + b < 2 ^ 64 → add64 a b ≡ a + b
unfolding add64
add64-small a b h = omega arith
