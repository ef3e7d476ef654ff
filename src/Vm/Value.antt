-- ===== src/Vm/Value.antt =====
-- Integers of the four modes (include/vm/vm.h): `vmSizeTbl`, `VM_integer_size`, and the bytes that
-- `VM_read` and `VM_write` move. An `i64` is its bit pattern, a number below 2 ^ 64; bytes are little
-- endian, as on the machines the project builds for.
use cyntatic.Prelude.{
  ℕ, zero, suc, ◌+◌, ◌-◌, ◌*◌, ◌/◌, ◌%◌, ◌^◌, ◌<◌, ◌≡◌, refl, ap, ◌∙◌, ◌⊎◌, inl, inr, Bool-cases,
  Option, some, none, List, [], ◌∷◌, ◌++◌, arith, leb, ltb, if◌then◌else◌, get_elem?, length,
}
use cyntatic.Word.{u64_mod}

-- `vmSizeTbl`.
abbrev pub size_tbl : List ℕ
size_tbl = 1 ∷ 2 ∷ 4 ∷ 8 ∷ []

-- A look-up in it; `none` beyond its end.
unfoldable pub mode_size : ℕ → Option ℕ
mode_size mode = get_elem? size_tbl mode

-- `VM_integer_size`.
unfoldable pub integer_size : ℕ → ℕ
integer_size imm =
    if leb imm 0x7f then 0 else if leb imm 0x7fff then 1 else if leb imm 0x7fff_ffff then 2 else 3

-- The `n` low bytes of a value, as `VM_write` stores them.
unfoldable pub le_bytes : ℕ → ℕ → List ℕ
le_bytes zero v = []
le_bytes (suc n) v = (v % 256) ∷ le_bytes n (v / 256)

-- The number in the first `n` bytes; `none` where there are fewer.
unfoldable pub le_read : ℕ → List ℕ → Option ℕ
le_read zero bs = some 0
le_read (suc n) [] = none
le_read (suc n) (b ∷ bs) = elim (le_read n bs) [ some v ↦ some (b + 256 * v) | none ↦ none ]

-- The conversion of an `n`-byte signed integer to `i64`.
unfoldable pub sign_extend : ℕ → ℕ → ℕ
sign_extend n v = if ltb v (2 ^ (8 * n - 1)) then v else v + (u64_mod - 2 ^ (8 * n))

-- The bytes of `le_bytes`, added up again.
abbrev pub low_bytes : ℕ → ℕ → ℕ
low_bytes zero v = 0
low_bytes (suc n) v = v % 256 + 256 * low_bytes n (v / 256)

le_read-low_bytes :
    (n v : ℕ) (post : List ℕ) → le_read n (le_bytes n v ++ post) ≡ some (low_bytes n v)
unfolding le_read le_bytes
le_read-low_bytes zero v post = refl
le_read-low_bytes (suc n) v post = rw (le_read-low_bytes n (v / 256) post)

pub length-le_bytes : (n v : ℕ) → length (le_bytes n v) ≡ n
unfolding le_bytes
length-le_bytes zero v = refl
length-le_bytes (suc n) v = ap suc (length-le_bytes n (v / 256))

-- `n` is the size of a mode.
abbrev pub IsSize : ℕ → Type 0
IsSize n = (n ≡ 1) ⊎ (n ≡ 2) ⊎ (n ≡ 4) ⊎ (n ≡ 8)

pub low_bytes_lem : (n v : ℕ) → IsSize n → low_bytes n v ≡ v % 2 ^ (8 * n)
low_bytes_lem n v (inl e) = rw e (omega arith)
low_bytes_lem n v (inr (inl e)) = rw e (omega arith)
low_bytes_lem n v (inr (inr (inl e))) = rw e (omega arith)
low_bytes_lem n v (inr (inr (inr e))) = rw e (omega arith)

-- Reading back what was written gives the low bytes of the value.
pub le_read-le_bytes :
    (n v : ℕ) (post : List ℕ) → IsSize n → le_read n (le_bytes n v ++ post) ≡ some (v % 2 ^ (8 * n))
le_read-le_bytes n v post s = le_read-low_bytes n v post ∙ ap some (low_bytes_lem n v s)

pub mode_size-IsSize : (mode : ℕ) {n : ℕ} → mode_size mode ≡ some n → IsSize n
unfolding mode_size
mode_size-IsSize zero e = inl (ground arith)
mode_size-IsSize (suc zero) e = inr (inl (ground arith))
mode_size-IsSize (suc (suc zero)) e = inr (inr (inl (ground arith)))
mode_size-IsSize (suc (suc (suc zero))) e = inr (inr (inr (ground arith)))
mode_size-IsSize (suc (suc (suc (suc m)))) e = cc

pub mode_size-some : (mode : ℕ) → mode < 4 → (n : ℕ) × (mode_size mode ≡ some n)
unfolding mode_size
mode_size-some zero h = (1, refl)
mode_size-some (suc zero) h = (2, refl)
mode_size-some (suc (suc zero)) h = (4, refl)
mode_size-some (suc (suc (suc zero))) h = (8, refl)
mode_size-some (suc (suc (suc (suc m)))) h = absurd (omega arith)

-- `VM_integer_size` picks a mode wide enough: an immediate stored in that many bytes and sign extended
-- again is the same 64-bit value.
pub integer_size-sign_extend :
    (imm : ℕ)
    → imm < u64_mod
    → (n : ℕ) × (mode_size (integer_size imm) ≡ some n) × (sign_extend n (imm % 2 ^ (8 * n)) ≡ imm)
unfolding integer_size mode_size sign_extend
integer_size-sign_extend imm h = elim (Bool-cases (leb imm 0x7f)) [
  | inl b ↦ (1, rw b, ground arith)
  | inr nb ↦ elim (Bool-cases (leb imm 0x7fff)) [
    | inl s ↦ (2, rw (nb, s), ground arith)
    | inr ns ↦ elim (Bool-cases (leb imm 0x7fff_ffff)) [
      | inl w ↦ (4, rw (nb, ns, w), ground arith)
      | inr nw ↦ (8, rw (nb, ns, nw), ground arith)
    ]
  ]
]
