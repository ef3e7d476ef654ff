-- ===== src/Vm/State/Laws.antt =====
-- Loads, stores, and the accesses of `VM_read` and `VM_write` (include/vm/vm.h).
use cyntatic.Prelude.{
  ℕ, zero, suc, ◌+◌, ◌*◌, ◌/◌, ◌%◌, ◌^◌, ◌≤◌, ◌<◌, ◌≡◌, refl, ◌∙◌, ◌⊎◌, inl, inr, false, some, List,
  [], ◌∷◌, arith, ltb, leb, ◌==◌, length, Bool-cases, ==_refl,
}
use cyntatic.Vm.Run.{ok, of_ok_eq}
use cyntatic.Vm.Value.{
  mode_size, le_bytes, sign_extend, low_bytes, low_bytes_lem, IsSize, mode_size-IsSize,
}
use cyntatic.Vm.State.{
  Vm, Place, reg, imm, mem, set_reg, update, reg_count, ram_value, ram_store, mem_load, mem_store,
  read_size, read, write_size, write,
}

-- A store leaves the bytes outside its range alone.
pub ram_store_frame :
    (m : ℕ → ℕ) (a : ℕ) (bs : List ℕ) (q : ℕ)
    → (q < a) ⊎ (a + length bs ≤ q)
    → ram_store m a bs q ≡ m q
unfolding ram_store
ram_store_frame m a [] q h = refl
ram_store_frame m a (b ∷ bs) q h =
    let ne : (q == a) ≡ false = ground arith in
    rw ne (ram_store_frame m (a + 1) bs q (ground arith))

-- A load depends only on the bytes in its range.
pub ram_value_congr :
    (m m' : ℕ → ℕ) (a n : ℕ)
    → ((q : ℕ) → a ≤ q → q < a + n → m q ≡ m' q)
    → ram_value m a n ≡ ram_value m' a n
unfolding ram_value
ram_value_congr m m' a zero h = refl
ram_value_congr m m' a (suc n) h = omega (
  arith,
  h a (omega arith) (omega arith),
  ram_value_congr m m' (a + 1) n (λ q p r. h q (omega arith) (omega arith)),
)

-- Loading what was stored gives its low bytes.
pub ram_value-ram_store :
    (m : ℕ → ℕ) (a n v : ℕ) → ram_value (ram_store m a (le_bytes n v)) a n ≡ low_bytes n v
unfolding ram_value ram_store le_bytes
ram_value-ram_store m a zero v = refl
ram_value-ram_store m a (suc n) v =
    let m' = ram_store m (a + 1) (le_bytes n (v / 256)) in
    let rest : ram_value (update m' a (v % 256)) (a + 1) n ≡ low_bytes n (v / 256) =
      ram_value_congr (update m' a (v % 256)) m' (a + 1) n (λ q p r. ground arith)
      ∙ ram_value-ram_store m (a + 1) n (v / 256) in
    ground (arith, rest)

-- The registers and the memory of the machine; an immediate cannot be stored to.
abbrev pub IsStore : Place → Type 0
IsStore (imm v) = ⊥
IsStore p = Unit

-- Replacing the low bytes of a register.
low_part :
    (n x v : ℕ)
    → IsSize n
    → (x / 2 ^ (8 * n) * 2 ^ (8 * n) + v % 2 ^ (8 * n)) % 2 ^ (8 * n) ≡ v % 2 ^ (8 * n)
low_part n x v (inl e) = rw e (omega arith)
low_part n x v (inr (inl e)) = rw e (omega arith)
low_part n x v (inr (inr (inl e))) = rw e (omega arith)
low_part n x v (inr (inr (inr e))) = rw e (omega arith)

-- What `VM_write` does at a register or in memory: `VM_read` of the same mode gives the value cut to
-- its size and sign extended.
read_size-write_size :
    (vm : Vm) (p : Place) (v n : ℕ) {vm' : Vm}
    → IsSize n
    → IsStore p
    → write_size vm p v n ≡ ok vm'
    → read_size vm' p n ≡ ok (sign_extend n (v % 2 ^ (8 * n)))
unfolding write_size read_size mem_store mem_load
read_size-write_size vm (reg r) v n {vm'} s t e = elim (Bool-cases (ltb r reg_count)) [
  | inr out ↦ absurd (cc (rw out at e))
  | inl within ↦
      let e' : ok (set_reg vm r (vm.regs r / 2 ^ (8 * n) * 2 ^ (8 * n) + v % 2 ^ (8 * n)))
          ≡ ok vm' =
        rw within at e in
      of_ok_eq (λ m. read_size m (reg r) n ≡ ok (sign_extend n (v % 2 ^ (8 * n)))) e'
        (rw (within, ==_refl r, low_part n (vm.regs r) v s))
]
read_size-write_size vm (imm i) v n s t e = elim t [ ]
read_size-write_size vm (mem a) v n {vm'} s t e = elim (Bool-cases (leb (a + n) vm.size)) [
  | inr out ↦ absurd (cc (rw out at e))
  | inl within ↦
      let e' : ok (record vm { ram = ram_store vm.ram a (le_bytes n v) }) ≡ ok vm' =
        rw within at e in
      of_ok_eq (λ m. read_size m (mem a) n ≡ ok (sign_extend n (v % 2 ^ (8 * n)))) e'
        (rw (within, ram_value-ram_store vm.ram a n v, low_bytes_lem n v s))
]

-- `VM_read` after `VM_write` of the same mode, at a register or in memory.
pub read-write :
    (vm : Vm) (p : Place) (v mode n : ℕ) {vm' : Vm}
    → mode_size mode ≡ some n
    → IsStore p
    → write vm p v mode ≡ ok vm'
    → read vm' p mode ≡ ok (sign_extend n (v % 2 ^ (8 * n)))
unfolding read write
read-write vm p v mode n {vm'} s t e =
    let e' : write_size vm p v n ≡ ok vm' = rw s at e in
    rw s (read_size-write_size vm p v n (mode_size-IsSize mode s) t e')
