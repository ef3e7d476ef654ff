-- ===== src/Vm/Alu.antt =====
-- The arithmetic of `VM_execute` (src/vm/vm.c) on 64-bit patterns: the operators of C on `i64`.
-- Signed overflow wraps, as gcc and clang compile it; a shift by a negative count or by 64 and more, a
-- division by zero and the quotient of the least integer by -1 have no defined result.
use Prim.Native.Nat.{bit_and, bit_or, bit_xor}
use cyntatic.Prelude.{
  ℕ, ◌+◌, ◌-◌, ◌*◌, ◌/◌, ◌%◌, ◌^◌, Bool, ◌&&◌, ◌||◌, ltb, leb, ◌==◌, if◌then◌else◌,
}
use cyntatic.Word.{u64_mod}
use cyntatic.Vm.Run.{Run, ok, fault, undefined}

pub data BinOp : Type 0 where
  plus minus shift_right shift_left xor_bits or_bits and_bits times over : BinOp

abbrev pub is_neg : ℕ → Bool
is_neg a = leb (2 ^ 63) a

-- 0 - a.
unfoldable pub negate : ℕ → ℕ
negate a = (u64_mod - a) % u64_mod

-- `~a`.
unfoldable pub complement : ℕ → ℕ
complement a = u64_mod - 1 - a

-- `a < b`, signed.
unfoldable pub less : ℕ → ℕ → Bool
less a b = ltb ((a + 2 ^ 63) % u64_mod) ((b + 2 ^ 63) % u64_mod)

unfoldable pub magnitude : ℕ → ℕ
unfolding negate
magnitude a = if is_neg a then negate a else a

-- The quotient rounds towards zero.
unfoldable pub divide : ℕ → ℕ → Run ℕ
unfolding negate magnitude
divide a b =
    let q = magnitude a / magnitude b in
    if b == 0 || (a == 2 ^ 63 && b == u64_mod - 1)
    then fault undefined
    else (if is_neg a
        then (if is_neg b then ok q else ok (negate q))
        else if is_neg b
        then ok (negate q)
        else ok q)

unfoldable pub alu : BinOp → ℕ → ℕ → Run ℕ
unfolding complement divide
alu plus a b = ok ((a + b) % u64_mod)
alu minus a b = ok ((a + u64_mod - b) % u64_mod)
alu shift_right a b =
    if ltb b 64
    then ok (if is_neg a then complement (complement a / 2 ^ b) else a / 2 ^ b)
    else fault undefined
alu shift_left a b = if ltb b 64 then ok (a * 2 ^ b % u64_mod) else fault undefined
alu xor_bits a b = ok (bit_xor a b)
alu or_bits a b = ok (bit_or a b)
alu and_bits a b = ok (bit_and a b)
alu times a b = ok (a * b % u64_mod)
alu over a b = divide a b
