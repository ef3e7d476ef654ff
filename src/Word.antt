-- ===== src/Word.antt =====
-- Machine words (include/common.h): a w-bit unsigned value is a native number below 2 ^ w, and each
-- operation keeps its wrap-around.
use Prim.Native.Nat.{bit_and}
use cyntatic.Prelude.{ℕ, ◌+◌, ◌-◌, ◌%◌, ◌^◌}

abbrev pub u8_mod : ℕ
u8_mod = 2 ^ 8

abbrev pub u32_mod : ℕ
u32_mod = 2 ^ 32

abbrev pub u64_mod : ℕ
u64_mod = 2 ^ 64

abbrev pub add32 : ℕ → ℕ → ℕ
add32 a b = (a + b) % u32_mod

-- For operands below 2 ^ 32.
abbrev pub sub32 : ℕ → ℕ → ℕ
sub32 a b = (a + u32_mod - b) % u32_mod

-- `~a` of a `u32`.
abbrev pub not32 : ℕ → ℕ
not32 a = u32_mod - 1 - a

-- `CynAlign(S, A)` on a `u32` and an alignment below 2 ^ 32, of whatever bits: `(S + (A - 1)) & ~(A - 1)`.
unfoldable pub align : ℕ → ℕ → ℕ
align s a = let m = sub32 a 1 in bit_and (add32 s m) (not32 m)
