-- ===== src/Vm/Start.antt =====
-- Setting the machine up and running it (src/vm/vm.c, src/vm/memory.c): `VM_memory_init`, `VM_init_`,
-- `VM_cstring_dup_`, `VM_run`. What `malloc` leaves in the memory is a parameter.
pub mod Loop
use cyntatic.Prelude.{
  ℕ, zero, suc, ◌+◌, ◌-◌, ◌*◌, ◌/◌, ◌%◌, ◌^◌, Bool, true, false, not, ◌&&◌, ◌||◌, Option, some,
  none, List, [], ◌∷◌, ◌++◌, ltb, leb, ◌==◌, if◌then◌else◌, length, get_elem?, drop,
}
use cyntatic.Word.{u32_mod, u64_mod, add32, sub32}
use cyntatic.Vm.Heap
use cyntatic.Vm.Heap.{heap_init}
use cyntatic.Vm.Run.{Run, ok, fault, undefined, out_of_heap, ◌>>=◌, defined}
use cyntatic.Vm.Code.{header_db, fetch}
use cyntatic.Vm.State.{Vm, set_reg, r0, sp, ip, bp, mem_at, mem_store, ram_store, update}
use cyntatic.Vm.Stack.{push}
use cyntatic.Vm.Exec.{execute}

-- `CynAlign(S, 8)` on a `u64`.
abbrev pub align8 : ℕ → ℕ
align8 s = let t = (s + 7) % u64_mod in t - t % 8

-- `sizeof(Heap) + sizeof(HeapBlock) * nhbs` for the packed structures, aligned, in a `u32`.
unfoldable pub heap_bytes : ℕ → ℕ
heap_bytes nhbs = align8 (37 + 16 * nhbs) % u32_mod

-- The first `n` bytes of the code; a `memcpy` from beyond its end has no defined result.
unfoldable pub code_prefix : ℕ → List ℕ → Run (List ℕ)
code_prefix zero code = ok []
code_prefix (suc n) [] = fault undefined
code_prefix (suc n) (b ∷ code) = code_prefix n code >>= λ bs. ok (b ∷ bs)

-- `n` bytes of the marker that `VM_init_` writes.
unfoldable pub marks : ℕ → List ℕ
marks zero = []
marks (suc n) = 0xa3 ∷ marks n

-- `VM_init_`, with `VM_memory_init` and `VM_heap_init`: `heap_mem` is the memory that `malloc` returned
-- and `base` the host address of `ram.base`.
unfoldable pub vm_init : (ℕ → ℕ) → ℕ → List ℕ → ℕ → ℕ → ℕ → Run Vm
unfolding heap_bytes heap_init code_prefix marks
vm_init heap_mem base code ram_size nhbs stack_size = do
  db ← header_db code
  let bk = heap_bytes nhbs
  let total = align8 ((ram_size + add32 db bk) % u64_mod)
  let ss = align8 ((stack_size + 8) % u64_mod) % u32_mod
  let size = (total + u64_mod - bk) % u64_mod % u32_mod
  let sb = sub32 size ss
  let hlm = sub32 sb 8
  header ← code_prefix db code
  let vm : Vm = record {
    halted = false;
    regs = λ r. 0;
    code = code;
    ram = heap_mem;
    base = base;
    sb = sb;
    hb = db;
    hlm = hlm;
    size = size;
    heap = heap_init db hlm nhbs 16 8;
    out = [];
  }
  vm1 ← mem_store vm 0 db header
  _ ← mem_at vm1 ss
  a ← mem_at vm1 (sub32 ss 7)
  mem_store vm1 a 8 (marks 8)

-- `VM_cstring_dup_`: `strncpy` of `len` bytes, which stops at no zero here since `s` holds none, and
-- writes no terminator.
unfoldable pub cstring_dup : Vm → List ℕ → Run (ℕ × Vm)
unfolding mem_at mem_store
cstring_dup vm s =
    let r = Heap.alloc vm.heap (length s + 1) in
    let vm1 = record vm { heap = r.1 } in
    if r.0 == 0
    then fault out_of_heap
    else (do a ← mem_at vm1 r.0; vm2 ← mem_store vm1 a (length s) s; ok (r.0, vm2))

-- The loop of `VM_run` over the arguments.
unfoldable pub push_args : Vm → List (List ℕ) → Run Vm
unfolding cstring_dup push
push_args vm [] = ok vm
push_args vm (s ∷ args) = do (a, vm1) ← cstring_dup vm s; vm2 ← push vm1 a; push_args vm2 args

-- `VM_run` up to its loop.
unfoldable pub boot : Vm → List (List ℕ) → Run Vm
unfolding push_args
boot vm args = do
  db ← header_db vm.code
  let argc = length args
  let start : Vm = record vm {
    regs = update (update (update (update (λ r. 0) sp vm.size) bp vm.size) ip db) r0 argc;
  }
  vm1 ← push_args start args
  vm2 ← push vm1 argc
  vm3 ← push vm2 (length vm.code)
  vm4 ← push vm3 (vm3.regs bp)
  ok (set_reg vm4 bp (vm4.regs sp))

module _ (native : ℕ → Vm → ℕ → ℕ → Run Vm) where
  -- One round of the loop of `VM_run`.
  unfoldable pub step : Vm → Run Vm
  unfolding fetch execute
  step vm = do
    let iip = vm.regs ip
    (i, next) ← fetch vm.code iip
    execute native (set_reg vm ip next) i iip

  -- The loop of `VM_run`, on fuel: the last machine, and whether the loop ended.
  unfoldable pub run_loop : ℕ → Vm → Run (Bool × Vm)
  unfolding step
  run_loop zero vm = ok (false, vm)
  run_loop (suc fuel) vm =
      let rest = step vm >>= λ vm1.
      (let more = run_loop fuel vm1 in if vm1.halted then ok (true, vm1) else more) in
      if ltb (vm.regs ip) (length vm.code) then rest else ok (true, vm)

  -- `VM_run`.
  unfoldable pub vm_run : ℕ → Vm → List (List ℕ) → Run (Bool × Vm)
  unfolding boot run_loop
  vm_run fuel vm args = boot vm args >>= run_loop fuel
