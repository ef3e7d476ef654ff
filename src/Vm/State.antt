-- ===== src/Vm/State.antt =====
-- The state of the virtual machine and its access to registers and memory (include/vm/vm.h): `REG`,
-- `MEM`, `VM_read`, `VM_write`. A 64-bit register is its bit pattern. The memory is the bytes from
-- `ram.base` on; an access that leaves `size` bytes has no defined result.
pub mod Laws
use cyntatic.Prelude.{
  ℕ, zero, suc, ◌+◌, ◌-◌, ◌*◌, ◌/◌, ◌%◌, ◌^◌, Bool, true, false, Option, some, none, List, [], ◌∷◌,
  ◌++◌, ltb, leb, ◌==◌, if◌then◌else◌,
}
use cyntatic.Word.{u32_mod, u64_mod}
use cyntatic.Vm.Heap.{Heap}
use cyntatic.Vm.Run.{Run, ok, fault, access_violation, undefined, ◌>>=◌, defined}
use cyntatic.Vm.Value.{mode_size, le_bytes, sign_extend}

-- What the machine writes to the standard output: bytes, a 64-bit integer in decimal, or the line
-- "count %u = %u" that `alloca` prints.
pub data Output : Type 0 where
  bytes : List ℕ → Output
  number : ℕ → Output
  count : ℕ → ℕ → Output

-- `VM` with its `Memory`. `base` is the host address of `ram.base`; the heap's descriptors stand below
-- it, in `heap`.
pub record Vm : Type 0 where
  pub halted : Bool
  pub regs : ℕ → ℕ
  pub code : List ℕ
  pub ram : ℕ → ℕ
  pub base : ℕ
  pub sb : ℕ
  pub hb : ℕ
  pub hlm : ℕ
  pub size : ℕ
  pub heap : Heap
  pub out : List Output

-- `enum VirtualMachineRegister`.
abbrev pub r0 : ℕ
r0 = 0

abbrev pub sp : ℕ
sp = 6

abbrev pub ip : ℕ
ip = 7

abbrev pub bp : ℕ
bp = 8

abbrev pub flg : ℕ
flg = 9

abbrev pub reg_count : ℕ
reg_count = 10

abbrev pub update : (ℕ → ℕ) → ℕ → ℕ → ℕ → ℕ
update f k v q = if q == k then v else f q

-- `REG(vm, r) = v`.
abbrev pub set_reg : Vm → ℕ → ℕ → Vm
set_reg vm r v = record vm { regs = update vm.regs r v }

-- Where an operand stands: a register, the immediate field of the instruction, or memory.
pub data Place : Type 0 where
  reg : ℕ → Place
  imm : ℕ → Place
  mem : ℕ → Place

-- `MEM`: the parameter is a `u32`, and the test admits the address `size` itself.
unfoldable pub mem_at : Vm → ℕ → Run ℕ
mem_at vm addr = let a = addr % u32_mod in if ltb vm.size a then fault access_violation else ok a

-- `n` bytes of memory from `a`, as a number.
unfoldable pub ram_value : (ℕ → ℕ) → ℕ → ℕ → ℕ
ram_value m a zero = 0
ram_value m a (suc n) = m a % 256 + 256 * ram_value m (a + 1) n

-- `n` bytes of memory from `a`, as a list.
unfoldable pub ram_bytes : (ℕ → ℕ) → ℕ → ℕ → List ℕ
ram_bytes m a zero = []
ram_bytes m a (suc n) = m a ∷ ram_bytes m (a + 1) n

-- The bytes `bs` stored from `a` on.
unfoldable pub ram_store : (ℕ → ℕ) → ℕ → List ℕ → ℕ → ℕ
ram_store m a [] = m
ram_store m a (b ∷ bs) = update (ram_store m (a + 1) bs) a b

-- A load of `n` bytes from memory.
unfoldable pub mem_load : Vm → ℕ → ℕ → Run ℕ
unfolding ram_value
mem_load vm a n = if leb (a + n) vm.size then ok (ram_value vm.ram a n) else fault undefined

-- A store of bytes to memory.
unfoldable pub mem_store : Vm → ℕ → ℕ → List ℕ → Run Vm
unfolding ram_store
mem_store vm a n bs =
    if leb (a + n) vm.size then ok (record vm { ram = ram_store vm.ram a bs }) else fault undefined

-- `VM_read` of `n` bytes, sign extended.
unfoldable pub read_size : Vm → Place → ℕ → Run ℕ
unfolding mem_load
read_size vm (reg r) n =
    if ltb r reg_count then ok (sign_extend n (vm.regs r % 2 ^ (8 * n))) else fault undefined
read_size vm (imm v) n = ok (sign_extend n (v % 2 ^ (8 * n)))
read_size vm (mem a) n = mem_load vm a n >>= λ v. ok (sign_extend n v)

-- `VM_read`.
unfoldable pub read : Vm → Place → ℕ → Run ℕ
unfolding read_size
read vm p mode = defined (mode_size mode) >>= read_size vm p

-- `VM_write` of `n` bytes: a register keeps its other bytes. A store to the immediate field changes
-- the fetched instruction, which nothing reads again.
unfoldable pub write_size : Vm → Place → ℕ → ℕ → Run Vm
unfolding mem_store
write_size vm (reg r) v n =
    if ltb r reg_count
    then ok (set_reg vm r (vm.regs r / 2 ^ (8 * n) * 2 ^ (8 * n) + v % 2 ^ (8 * n)))
    else fault undefined
write_size vm (imm i) v n = ok vm
write_size vm (mem a) v n = mem_store vm a n (le_bytes n v)

-- `VM_write`.
unfoldable pub write : Vm → Place → ℕ → ℕ → Run Vm
unfolding write_size
write vm p v mode = defined (mode_size mode) >>= write_size vm p v
