-- ===== src/Prelude/Words.antt =====
-- Unsigned machine words: a w-bit value is a number, and arithmetic wraps.
use Prim.Native.Nat.{ℕ, ◌+◌, ◌-◌, ◌*◌, ◌%◌, ◌^◌, ◌<◌}
use mathlib.Core.Path.{◌≡◌}
use native.Mathlib.Omega.{arith}

-- uint64_t addition and multiplication.
unfoldable pub add_u64 : ℕ → ℕ → ℕ
add_u64 a b = (a + b) % 2 ^ 64

unfoldable pub mul_u64 : ℕ → ℕ → ℕ
mul_u64 a b = (a * b) % 2 ^ 64

-- Addition that does not wrap.
pub add_u64-eq : (a b : ℕ) → a + b < 2 ^ 64 → add_u64 a b ≡ a + b
unfolding add_u64
add_u64-eq a b h = omega arith

pub add_u64-lt : (a b : ℕ) → add_u64 a b < 2 ^ 64
unfolding add_u64
add_u64-lt a b = omega arith

-- ++ and -- on a uint32_t.
unfoldable pub inc_u32 : ℕ → ℕ
inc_u32 n = (n + 1) % 2 ^ 32

unfoldable pub dec_u32 : ℕ → ℕ
dec_u32 n = (n + (2 ^ 32 - 1)) % 2 ^ 32

-- uint64_t subtraction, of a word.
unfoldable pub sub_u64 : ℕ → ℕ → ℕ
sub_u64 a b = (a + (2 ^ 64 - b)) % 2 ^ 64

pub inc_u32-eq : (n : ℕ) → n + 1 < 2 ^ 32 → inc_u32 n ≡ n + 1
unfolding inc_u32
inc_u32-eq n h = omega arith

pub dec_u32-eq : (n : ℕ) → 0 < n → n < 2 ^ 32 → dec_u32 n ≡ n - 1
unfolding dec_u32
dec_u32-eq n h k = omega arith
