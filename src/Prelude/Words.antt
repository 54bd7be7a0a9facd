-- ===== src/Prelude/Words.antt =====
-- Unsigned machine words as release builds compute them: sums and differences wrap around, and a
-- shift takes its amount modulo the width.
use Prim.Native.Nat.{ℕ, ◌+◌, ◌-◌, ◌%◌, ◌^◌, ◌≤◌, ◌<◌}
use mathlib.Core.Path.{◌≡◌, ap}
use native.Mathlib.Nat.{mod-eq_of_lt, pow-le-pow_right}
use native.Mathlib.Omega.{arith}

abbrev pub u32_mod : ℕ
u32_mod = 2 ^ 32

abbrev pub u64_mod : ℕ
u64_mod = 2 ^ 64

-- `a + b` and `a - b` on u32.
unfoldable pub add32 : ℕ → ℕ → ℕ
add32 a b = (a + b) % u32_mod

unfoldable pub sub32 : ℕ → ℕ → ℕ
sub32 a b = (a + u32_mod - b) % u32_mod

-- `a - b` on usize.
unfoldable pub sub64 : ℕ → ℕ → ℕ
sub64 a b = (a + u64_mod - b) % u64_mod

-- `1 << d` on u32, and on u64 and usize.
unfoldable pub shl32 : ℕ → ℕ
shl32 d = 2 ^ (d % 32)

unfoldable pub shl64 : ℕ → ℕ
shl64 d = 2 ^ (d % 64)

pub sub32-eq : (a b : ℕ) → b ≤ a → a < u32_mod → sub32 a b ≡ a - b
unfolding sub32
sub32-eq a b h l = omega arith

pub add32-eq : (a b : ℕ) → a + b < u32_mod → add32 a b ≡ a + b
unfolding add32
add32-eq a b h = omega arith

pub sub64-eq : (a b : ℕ) → b ≤ a → a < u64_mod → sub64 a b ≡ a - b
unfolding sub64
sub64-eq a b h l = omega arith

pub shl32-eq : (d : ℕ) → d < 32 → shl32 d ≡ 2 ^ d
unfolding shl32
shl32-eq d h = ap (λ k. 2 ^ k) (mod-eq_of_lt h)

pub shl64-eq : (d : ℕ) → d < 64 → shl64 d ≡ 2 ^ d
unfolding shl64
shl64-eq d h = ap (λ k. 2 ^ k) (mod-eq_of_lt h)

-- A usize expression of sums and products.
unfoldable pub word64 : ℕ → ℕ
word64 n = n % u64_mod

pub word64-eq : (n : ℕ) → n < u64_mod → word64 n ≡ n
unfolding word64
word64-eq n h = mod-eq_of_lt h

pub pow_mono : (i j : ℕ) → i ≤ j → 2 ^ i ≤ 2 ^ j
pow_mono i j h = pow-le-pow_right {n = 2} (omega arith) h
