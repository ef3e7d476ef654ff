-- ===== src/Vm/Stack.antt =====
-- The stack (include/vm/vm.h, src/vm/vm.c): `VM_pushn`, `VM_popn`, `VM_returnx`. It grows down from
-- `size`; registers are 64-bit, counts are `u8` and sizes `u32`.
pub mod Laws
use cyntatic.Prelude.{
  ℕ, zero, suc, ◌+◌, ◌-◌, ◌*◌, ◌/◌, ◌%◌, ◌^◌, Bool, true, false, Option, some, none, List, [], ◌∷◌,
  ◌++◌, ltb, leb, ◌==◌, if◌then◌else◌, length,
}
use cyntatic.Word.{u8_mod, u32_mod, u64_mod}
use cyntatic.Vm.Run.{Run, ok, fault, stack_overflow, stack_underflow, undefined, ◌>>=◌}
use cyntatic.Vm.Value.{le_bytes}
use cyntatic.Vm.State.{Vm, set_reg, sp, ip, bp, mem_at, mem_load, mem_store, ram_bytes}

abbrev pub add64 : ℕ → ℕ → ℕ
add64 a b = (a + b) % u64_mod

-- For operands below 2 ^ 64.
abbrev pub sub64 : ℕ → ℕ → ℕ
sub64 a b = (a + u64_mod - b) % u64_mod

-- `VM_pushn(vm, NULL, count)`: room for `count` values, and its address.
unfoldable pub reserve : Vm → ℕ → Run (ℕ × Vm)
unfolding mem_at
reserve vm count =
    let size = count % u8_mod * 8 in
    let top = sub64 (vm.regs sp) size in
    if leb top vm.sb
    then fault stack_overflow
    else (mem_at vm top >>= λ a. ok (a, set_reg vm sp top))

-- `VM_pushn(vm, data, count)`: the bytes of the values are copied to the room.
unfoldable pub pushn : Vm → List ℕ → ℕ → Run Vm
unfolding reserve mem_store
pushn vm bs count = do (a, vm') ← reserve vm count; mem_store vm' a (count % u8_mod * 8) bs

-- `VM_push`.
unfoldable pub push : Vm → ℕ → Run Vm
unfolding pushn
push vm v = pushn vm (le_bytes 8 v) 1

-- `VM_popn(vm, NULL, count)`: the address of the values dropped.
unfoldable pub popn : Vm → ℕ → Run (ℕ × Vm)
unfolding mem_at
popn vm count =
    let size = count % u8_mod * 8 in
    let end = add64 (vm.regs sp) size in
    if ltb vm.size end
    then fault stack_underflow
    else (mem_at vm (vm.regs sp) >>= λ a. ok (a, set_reg vm sp end))

-- `VM_pop(vm, T)` for a 64-bit type `T`.
unfoldable pub pop : Vm → Run (ℕ × Vm)
unfolding popn mem_load
pop vm = do (a, vm') ← popn vm 1; v ← mem_load vm' a 8; ok (v, vm')

-- `n` values of the memory at `a`, as bytes.
unfoldable pub values_at : Vm → ℕ → ℕ → Run (List ℕ)
unfolding ram_bytes
values_at vm a n =
    if leb (a + n * 8) vm.size then ok (ram_bytes vm.ram a (n * 8)) else fault undefined

-- `if (nargs) VM_popn(vm, NULL, nargs);`
unfoldable pub drop_args : Vm → ℕ → Run Vm
unfolding popn
drop_args vm nargs = if nargs == 0 then ok vm else (popn vm nargs >>= λ r. ok r.1)

-- The part that `VM_returnx` and the `ret` instruction share: the frame is left, and the caller's
-- `bp`, `ip` and arguments are popped.
unfoldable pub leave_frame : Vm → Run Vm
unfolding pop drop_args
leave_frame vm = do
  let at_frame = set_reg vm sp (vm.regs bp)
  (old_bp, vm1) ← pop at_frame
  (old_ip, vm2) ← pop (set_reg vm1 bp old_bp)
  (nargs, vm3) ← pop (set_reg vm2 ip old_ip)
  drop_args vm3 (nargs % u32_mod)

-- `VM_returnx`: `count` values, as bytes, are handed to the caller.
unfoldable pub returnx : Vm → List ℕ → ℕ → Run Vm
unfolding leave_frame push pushn
returnx vm vals count = do
  vm1 ← leave_frame vm
  vm2 ← (if count == 0 then ok vm1 else pushn vm1 vals count)
  push vm2 count

-- The prologue of `call` and `ncall`: `ip` and `bp` are saved, and a frame starts.
unfoldable pub enter_frame : Vm → Run Vm
unfolding push
enter_frame vm = do
  vm1 ← push vm (vm.regs ip)
  vm2 ← push vm1 (vm1.regs bp)
  ok (set_reg vm2 bp (vm2.regs sp))
