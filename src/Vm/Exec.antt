-- ===== src/Vm/Exec.antt =====
-- `VM_execute` (src/vm/vm.c): one instruction. The builtin native calls (src/vm/builtins.c) are a
-- parameter: the index, the machine, the address of the arguments (0 for a null pointer) and their
-- number.
use cyntatic.Prelude.{
  ℕ, zero, suc, ◌+◌, ◌-◌, ◌*◌, ◌/◌, ◌%◌, ◌^◌, Bool, true, false, not, ◌&&◌, Option, some, none,
  List, [], ◌∷◌, ◌++◌, ltb, leb, ◌==◌, if◌then◌else◌,
}
use cyntatic.Word.{u32_mod}
use cyntatic.Utf8.{put_utf8}
use cyntatic.Vm.Heap
use cyntatic.Vm.Run.{Run, ok, fault, undefined, unknown_instruction, invalid_ucs, ◌>>=◌, defined}
use cyntatic.Vm.Instr.{Instruction, Opcode, opcode_of}
use cyntatic.Vm.State.{
  Vm, Place, reg, imm, mem, Output, bytes, number, count, set_reg, sp, ip, flg, reg_count, mem_at,
  mem_load, read, write,
}
use cyntatic.Vm.Stack.{
  add64, sub64, reserve, pushn, push, popn, pop, values_at, leave_frame, enter_frame,
}
use cyntatic.Vm.Alu.{
  BinOp, plus, minus, shift_right, shift_left, xor_bits, or_bits, and_bits, times, over, less,
  complement, alu,
}

-- The resolved operands and the two modes that the cases of the switch use.
pub record Operands : Type 0 where
  pub a : Option Place
  pub b : Option Place
  pub ta : ℕ
  pub tb : ℕ
  pub indirect : Bool

-- `REG(vm, r)` for a register number of the instruction.
unfoldable pub reg_value : Vm → ℕ → Run ℕ
reg_value vm r = if ltb r reg_count then ok (vm.regs r) else fault undefined

-- `MEM(vm, REG(vm, r))` or `&REG(vm, r)`.
unfoldable pub reg_place : Vm → Bool → ℕ → Run Place
unfolding reg_value mem_at
reg_place vm indirect r =
    if indirect then (do v ← reg_value vm r; a ← mem_at vm v; ok (mem a)) else ok (reg r)

-- `MEM(vm, instr->iu)` or `&instr->iu`.
unfoldable pub imm_place : Vm → Bool → ℕ → Run Place
unfolding mem_at
imm_place vm indirect v = if indirect then (mem_at vm v >>= λ a. ok (mem a)) else ok (imm v)

-- `MEM(vm, REG(vm, rb)) + ii`.
abbrev pub offset_place : Place → ℕ → Place
offset_place (mem a) ii = mem (add64 a ii)
offset_place p ii = p

-- The switch on `instr->osz`.
unfoldable pub resolve : Vm → Instruction → Run Operands
unfolding reg_place imm_place
resolve vm i =
    let in_reg = i.rmd == 0 in
    let modes : Option Place → Option Place → Bool → Operands = λ a b by_reg. record {
      a = a;
      b = b;
      ta = i.imd;
      tb = if by_reg then i.imd else i.ims;
      indirect = i.iam == 1;
    } in
    if i.osz == 1
    then ok (modes none none false)
    else if i.osz == 2
    then (do
      p ← (if in_reg then reg_place vm (i.iam == 1) i.ra else imm_place vm (i.iam == 1) i.ii)
      ok (modes (some p) none in_reg))
    else if i.osz == 3
    then (do
      p ← reg_place vm (i.iam == 1) i.ra
      q ← (if in_reg then reg_place vm (i.ibm == 1) i.rb else imm_place vm (i.ibm == 1) i.ii)
      ok (modes (some p) (some (if in_reg && i.iea == 1 then offset_place q i.ii else q)) in_reg))
    else fault undefined

-- `VM_read(rA, TA)`, `VM_read(rA, TB)`, `VM_read(rB, TB)`: a null operand has no defined value.
unfoldable pub read_at : Vm → Option Place → ℕ → Run ℕ
read_at vm p mode = defined p >>= λ q. read vm q mode

-- `VM_write(rA, v, mode)`.
unfoldable pub write_at : Vm → Option Place → ℕ → ℕ → Run Vm
write_at vm p v mode = defined p >>= λ q. write vm q v mode

abbrev pub emit : Vm → Output → Vm
emit vm o = record vm { out = vm.out ++ (o ∷ []) }

-- The bytes up to the first zero, from `a` on; the fuel is the rest of the memory.
unfoldable pub c_string : ℕ → (ℕ → ℕ) → ℕ → Option (List ℕ)
c_string zero m a = none
c_string (suc n) m a =
    let more : Option (List ℕ) = elim (c_string n m (a + 1)) [
      | none ↦ none
      | some s ↦ some (m a ∷ s)
    ] in
    if m a == 0 then some [] else more

-- `fputs` of a string in memory.
unfoldable pub put_string : Vm → ℕ → Run Vm
unfolding c_string
put_string vm a = do s ← defined (c_string (vm.size - a) vm.ram a); ok (emit vm (bytes s))

-- `BINARY_OPS`, but for the two operators that may leave their second operand unread.
unfoldable pub binary : BinOp → Vm → Operands → Run Vm
unfolding read_at write_at alu
binary op vm o = do
  x ← read_at vm o.a o.ta
  y ← read_at vm o.b o.tb
  v ← alu op x y
  write_at vm o.a v o.ta

abbrev pub to_nat : Bool → ℕ
to_nat true = 1
to_nat false = 0

-- `&&`, and `||`: `stop` is the truth value of the first operand that decides.
unfoldable pub logical : Bool → Vm → Operands → Run Vm
unfolding read_at write_at
logical stop vm o = do
  x ← read_at vm o.a o.ta
  let decided = if stop then not (x == 0) else x == 0
  v ←
      (if decided
        then ok (to_nat stop)
        else (read_at vm o.b o.tb >>= λ y. ok (to_nat (not (y == 0)))))
  write_at vm o.a v o.ta

-- The operators of one operand.
unfoldable pub unary : (ℕ → ℕ) → Vm → Operands → Run Vm
unfolding read_at write_at
unary f vm o = do x ← read_at vm o.a o.tb; write_at vm o.a (f x) o.ta

-- The jump of all five jump instructions; `iip` is the address of the instruction.
unfoldable pub jump : Bool → Vm → ℕ → Operands → Run Vm
unfolding read_at
jump taken vm iip o =
    if taken then (read_at vm o.a o.tb >>= λ x. ok (set_reg vm ip (add64 iip x))) else ok vm

-- A bit of the flags register.
abbrev pub flag : Vm → ℕ → Bool
flag vm bit = vm.regs flg / bit % 2 == 1

abbrev pub flg_zero : ℕ
flg_zero = 0x80

abbrev pub flg_less : ℕ
flg_less = 0x40

abbrev pub flg_greater : ℕ
flg_greater = 0x20

-- `ApplyCmp`.
unfoldable pub compare_op : Vm → Operands → Run Vm
unfolding read_at less
compare_op vm o = do
  x ← read_at vm o.a o.ta
  y ← read_at vm o.b o.tb
  ok (set_reg vm flg (if x == y then flg_zero else if less x y then flg_less else flg_greater))

-- `ApplyCall`.
unfoldable pub call_op : Vm → ℕ → Operands → Run Vm
unfolding enter_frame read_at
call_op vm iip o = do
  vm1 ← enter_frame vm
  x ← read_at vm1 o.a o.tb
  ok (set_reg vm1 ip (add64 iip x))

-- `ApplyRet`: the returned values are copied from where they stood; `memcpy` of ranges that overlap
-- is taken to copy as `memmove` does.
unfoldable pub ret_op : Vm → Operands → Run Vm
unfolding read_at popn values_at leave_frame pushn push
ret_op vm o = do
  x ← read_at vm o.a o.tb
  let nret = x % u32_mod
  (from, vm1) ← (if nret == 0 then ok (0, vm) else popn vm nret)
  vm2 ← leave_frame vm1
  vm3 ←
      (if nret == 0 then ok vm2 else (values_at vm2 from (nret % 256) >>= λ bs. pushn vm2 bs nret))
  push vm3 nret

-- `bncCOUNT`.
abbrev pub bnc_count : ℕ
bnc_count = 37

module _ (native : ℕ → Vm → ℕ → ℕ → Run Vm) where
  -- `ApplyNcall`: an identifier beyond the table is called as a host address.
  unfoldable pub ncall_op : Vm → Operands → Run Vm
  unfolding read_at mem_at mem_load enter_frame
  ncall_op vm o = do
    id ← read_at vm o.a o.tb
    top ← mem_at vm (vm.regs sp)
    nargs ← mem_load vm top 8
    argv ← (if nargs == 0 then ok 0 else mem_at vm (add64 (vm.regs sp) (nargs * 8)))
    vm1 ← enter_frame vm
    if ltb id bnc_count then native id vm1 argv (nargs % u32_mod) else fault undefined

  -- `ApplyAlloca`.
  unfoldable pub alloca_op : Vm → Operands → Run Vm
  unfolding read_at write_at reserve
  alloca_op vm o = do
    x ← read_at vm o.b o.tb
    let n = x / 2 ^ (3 - o.ta) % u32_mod
    vm1 ← write_at (emit vm (count o.ta n)) o.a (sub64 (vm.regs sp) 8) 3
    (_, vm2) ← reserve vm1 n
    ok vm2

  -- `VM_put_utf8_chr_`.
  unfoldable pub putc_op : Vm → Operands → Run Vm
  unfolding read_at put_utf8
  putc_op vm o = do
    x ← read_at vm o.a o.tb
    elim (put_utf8 (x % u32_mod)) [ some bs ↦ ok (emit vm (bytes bs)) | none ↦ fault invalid_ucs ]

  -- `ApplyPuts`: a memory operand is the string, any other holds its host address.
  unfoldable pub puts_op : Vm → Operands → Run Vm
  unfolding read_at put_string
  puts_op vm o = do
    a ← defined o.a
    host ← (if o.indirect then ok 0 else read_at vm o.a o.tb)
    elim a [
      | mem m ↦ put_string vm m
      | _ ↦ if leb vm.base host then put_string vm (host - vm.base) else fault undefined
    ]

  -- The switch on the operation; `iip` is the address of the instruction. `mcpy` and `mod` have no case.
  unfoldable pub execute_op : Opcode → Vm → ℕ → Operands → Run Vm
  unfolding binary logical unary jump compare_op call_op ret_op ncall_op alloca_op putc_op puts_op
      read_at write_at push pop popn complement
  execute_op Opcode.halt vm iip o = ok (record vm { halted = true })
  execute_op Opcode.dbg vm iip o = ok vm
  execute_op Opcode.ret vm iip o = ret_op vm o
  execute_op Opcode.jmp vm iip o = jump true vm iip o
  execute_op Opcode.jmpz vm iip o = jump (flag vm flg_zero) vm iip o
  execute_op Opcode.jmpnz vm iip o = jump (not (flag vm flg_zero)) vm iip o
  execute_op Opcode.jmpg vm iip o = jump (flag vm flg_greater) vm iip o
  execute_op Opcode.jmps vm iip o = jump (flag vm flg_less) vm iip o
  execute_op Opcode.lnot vm iip o = unary (λ x. to_nat (x == 0)) vm o
  execute_op Opcode.bnot vm iip o = unary complement vm o
  execute_op Opcode.inc vm iip o = unary (λ x. add64 x 1) vm o
  execute_op Opcode.dec vm iip o = unary (λ x. sub64 x 1) vm o
  execute_op Opcode.call vm iip o = call_op vm iip o
  execute_op Opcode.push vm iip o = read_at vm o.a o.tb >>= push vm
  execute_op Opcode.pop vm iip o = do (v, vm1) ← pop vm; write_at vm1 o.a v o.tb
  execute_op Opcode.popn vm iip o = do x ← read_at vm o.a o.tb; (_, vm1) ← popn vm x; ok vm1
  execute_op Opcode.puti vm iip o = do x ← read_at vm o.a o.tb; ok (emit vm (number x))
  execute_op Opcode.puts vm iip o = puts_op vm o
  execute_op Opcode.putc vm iip o = putc_op vm o
  execute_op Opcode.mcpy vm iip o = fault unknown_instruction
  execute_op Opcode.dlloc vm iip o = do
    x ← read_at vm o.a o.tb
    ok (record vm { heap = (Heap.free vm.heap (x % u32_mod)).1 })
  execute_op Opcode.ncall vm iip o = ncall_op vm o
  execute_op Opcode.alloca vm iip o = alloca_op vm o
  execute_op Opcode.rmem vm iip o = do
    x ← read_at vm o.b o.tb
    a ← mem_at vm x
    write_at vm o.a (add64 vm.base a) o.ta
  execute_op Opcode.mov vm iip o = do x ← read_at vm o.b o.tb; write_at vm o.a x o.ta
  execute_op Opcode.add vm iip o = binary plus vm o
  execute_op Opcode.sub vm iip o = binary minus vm o
  execute_op Opcode.and vm iip o = logical false vm o
  execute_op Opcode.or vm iip o = logical true vm o
  execute_op Opcode.sar vm iip o = binary shift_right vm o
  execute_op Opcode.sal vm iip o = binary shift_left vm o
  execute_op Opcode.xor vm iip o = binary xor_bits vm o
  execute_op Opcode.bor vm iip o = binary or_bits vm o
  execute_op Opcode.band vm iip o = binary and_bits vm o
  execute_op Opcode.mul vm iip o = binary times vm o
  execute_op Opcode.div vm iip o = binary over vm o
  execute_op Opcode.mod_op vm iip o = fault unknown_instruction
  execute_op Opcode.cmp vm iip o = compare_op vm o
  execute_op Opcode.alloc vm iip o = do
    x ← read_at vm o.b o.tb
    let r = Heap.alloc vm.heap (x % u32_mod)
    write_at (record vm { heap = r.1 }) o.a r.0 o.ta

  -- `VM_execute`.
  unfoldable pub execute : Vm → Instruction → ℕ → Run Vm
  unfolding resolve execute_op
  execute vm i iip = do
    o ← resolve vm i
    elim (opcode_of i.opc) [ none ↦ fault unknown_instruction | some op ↦ execute_op op vm iip o ]
