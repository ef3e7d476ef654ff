-- ===== src/Vm/Stack/Laws.antt =====
-- `VM_push` and `VM_pop` (include/vm/vm.h), and the frame that `call` and `ncall` enter and that
-- `VM_returnx` and `ret` leave (src/vm/vm.c).
use cyntatic.Prelude.{
  ℕ, zero, suc, ◌+◌, ◌-◌, ◌*◌, ◌%◌, ◌≤◌, ◌<◌, ◌≡◌, refl, ap, ◌∙◌, inr, true, false, arith, ltb, leb,
  ◌==◌,
}
use cyntatic.Word.{u8_mod, u32_mod, u64_mod}
use cyntatic.Vm.Run.{ok}
use cyntatic.Vm.Value.{le_bytes, low_bytes_lem, length-le_bytes}
use cyntatic.Vm.State.{
  Vm, set_reg, update, sp, ip, bp, mem_at, ram_value, ram_store, mem_load, mem_store,
}
use cyntatic.Vm.State.Laws.{ram_store_frame, ram_value_congr, ram_value-ram_store}
use cyntatic.Vm.Stack.{
  add64, sub64, reserve, pushn, push, popn, pop, drop_args, leave_frame, enter_frame,
}

-- The stack pointer stands in the stack, with room for `n` more values below it.
abbrev pub Room : Vm → ℕ → Type 0
Room vm n = (vm.sb + 8 * n < vm.regs sp) × (vm.regs sp ≤ vm.size) × (vm.size < u32_mod)

-- What a push does when there is room.
abbrev pub pushed : Vm → ℕ → Vm
pushed vm v = record vm {
  regs = update vm.regs sp (vm.regs sp - 8);
  ram = ram_store vm.ram (vm.regs sp - 8) (le_bytes 8 v);
}

pub push-pushed : (vm : Vm) (v : ℕ) → Room vm 1 → push vm v ≡ ok (pushed vm v)
unfolding push pushn reserve mem_at mem_store
push-pushed vm v h =
    let s : sub64 (vm.regs sp) 8 ≡ vm.regs sp - 8 = omega arith in
    let o : leb (vm.regs sp - 8) vm.sb ≡ false = ground arith in
    let a : (vm.regs sp - 8) % u32_mod ≡ vm.regs sp - 8 = omega arith in
    let m : ltb vm.size (vm.regs sp - 8) ≡ false = ground arith in
    let f : leb (vm.regs sp - 8 + 8) vm.size ≡ true = ground arith in rw (s, o, a, m, f)

-- What a pop does when a value is there.
pub pop-value :
    (vm : Vm)
    → vm.regs sp + 8 ≤ vm.size
    → vm.size < u32_mod
    → pop vm ≡ ok (ram_value vm.ram (vm.regs sp) 8, set_reg vm sp (vm.regs sp + 8))
unfolding pop popn mem_at mem_load
pop-value vm h k =
    let s : add64 (vm.regs sp) 8 ≡ vm.regs sp + 8 = omega arith in
    let o : ltb vm.size (vm.regs sp + 8) ≡ false = ground arith in
    let a : (vm.regs sp) % u32_mod ≡ vm.regs sp = omega arith in
    let m : ltb vm.size (vm.regs sp) ≡ false = ground arith in
    let f : leb (vm.regs sp + 8) vm.size ≡ true = ground arith in rw (s, o, a, m, f)

-- Popping `n` values, at least one.
pub drop_args-ok :
    (vm : Vm) (n : ℕ)
    → n < u8_mod
    → vm.regs sp + n * 8 ≤ vm.size
    → vm.size < u32_mod
    → (vm' : Vm) × (drop_args vm n ≡ ok vm')
      × (vm'.regs sp ≡ vm.regs sp + n * 8)
      × (vm'.regs ip ≡ vm.regs ip)
      × (vm'.regs bp ≡ vm.regs bp)
      × (vm'.ram ≡ vm.ram)
unfolding drop_args popn mem_at
drop_args-ok vm zero u h k = (vm, refl, omega arith, refl, refl, refl)
drop_args-ok vm (suc n) u h k =
    let c : suc n % u8_mod ≡ suc n = omega arith in
    let s : add64 (vm.regs sp) (suc n * 8) ≡ vm.regs sp + suc n * 8 = omega arith in
    let o : ltb vm.size (vm.regs sp + suc n * 8) ≡ false = ground arith in
    let a : (vm.regs sp) % u32_mod ≡ vm.regs sp = omega arith in
    let m : ltb vm.size (vm.regs sp) ≡ false = ground arith in
    let z : (suc n == 0) ≡ false = ground arith in
    (set_reg vm sp (vm.regs sp + suc n * 8), rw (z, c, s, o, a, m), refl, refl, refl, refl)

-- A value pushed, and the memory above it.
pub pushed-value :
    (vm : Vm) (v : ℕ) → v < u64_mod → ram_value (pushed vm v).ram (vm.regs sp - 8) 8 ≡ v
pushed-value vm v h =
    ram_value-ram_store vm.ram (vm.regs sp - 8) 8 v
    ∙ low_bytes_lem 8 v (inr (inr (inr refl)))
    ∙ (omega arith)

pub pushed-above : (vm : Vm) (v q : ℕ) → Room vm 1 → vm.regs sp ≤ q → (pushed vm v).ram q ≡ vm.ram q
pushed-above vm v q r h =
    ram_store_frame vm.ram (vm.regs sp - 8) (le_bytes 8 v) q
      (inr (omega (arith, length-le_bytes 8 v)))

-- With room for a value above `sb`, `push` succeeds, and `pop` then returns the value, sets the stack
-- pointer back, and leaves the memory from the old stack pointer on as it was.
pub pop-push :
    (vm : Vm) (v : ℕ)
    → Room vm 1
    → v < u64_mod
    → (vm1 : Vm) × (vm2 : Vm) × (push vm v ≡ ok vm1)
      × (pop vm1 ≡ ok (v, vm2))
      × (vm2.regs sp ≡ vm.regs sp)
      × ((q : ℕ) → vm.regs sp ≤ q → vm2.ram q ≡ vm.ram q)
pop-push vm v r h =
    let w : vm.regs sp - 8 + 8 ≡ vm.regs sp = omega arith in
    (
      pushed vm v,
      set_reg (pushed vm v) sp (vm.regs sp - 8 + 8),
      push-pushed vm v r,
      pop-value (pushed vm v) (omega arith) (omega arith)
          ∙ ap (λ x. ok (x, set_reg (pushed vm v) sp (vm.regs sp - 8 + 8))) (pushed-value vm v h),
      w,
      λ q. pushed-above vm v q r,
    )

-- What `leave_frame` does where a frame stands: the three values above `bp`, and the arguments.
leave_frame-ok :
    (vm : Vm) (b n : ℕ)
    → vm.regs bp ≡ b
    → ram_value vm.ram (b + 8 + 8) 8 ≡ n
    → n < u8_mod
    → b + 24 + n * 8 ≤ vm.size
    → vm.size < u32_mod
    → (vm' : Vm) × (leave_frame vm ≡ ok vm')
      × (vm'.regs sp ≡ b + 24 + n * 8)
      × (vm'.regs ip ≡ ram_value vm.ram (b + 8) 8)
      × (vm'.regs bp ≡ ram_value vm.ram b 8)
      × (vm'.ram ≡ vm.ram)
unfolding leave_frame
leave_frame-ok vm b n eb en u h k =
    let v0 = set_reg vm sp b in
    let v1 = set_reg (set_reg v0 sp (b + 8)) bp (ram_value vm.ram b 8) in
    let v2 = set_reg (set_reg v1 sp (b + 8 + 8)) ip (ram_value vm.ram (b + 8) 8) in
    let v3 = set_reg v2 sp (b + 8 + 8 + 8) in
    let m : n % u32_mod ≡ n = omega arith in
    let popped : leave_frame vm ≡ drop_args v3 n = rw (
      eb,
      pop-value v0 (omega arith) k,
      pop-value v1 (omega arith) k,
      pop-value v2 (omega arith) k,
      en,
      m,
    ) in
    let (vm', e, s, i, p, r) = drop_args-ok v3 n u (omega arith) k in
    (vm', popped ∙ e, omega (arith, s), i, p, r)

-- What entering a frame does when there is room for two values.
abbrev pub entered : Vm → Vm
entered vm = let vm2 = pushed (pushed vm (vm.regs ip)) (vm.regs bp) in set_reg vm2 bp (vm2.regs sp)

pub enter_frame-entered : (vm : Vm) → Room vm 2 → enter_frame vm ≡ ok (entered vm)
unfolding enter_frame
enter_frame-entered vm (r, s, t) = rw (
  push-pushed vm (vm.regs ip) (omega arith, s, t),
  push-pushed (pushed vm (vm.regs ip)) (vm.regs bp) (omega arith, omega arith, t),
)

-- The memory of an entered frame: `bp`, `ip`, and what stood above.
entered-bp :
    (vm : Vm)
    → vm.regs bp < u64_mod
    → ram_value (entered vm).ram (vm.regs sp - 8 - 8) 8 ≡ vm.regs bp
entered-bp vm h = pushed-value (pushed vm (vm.regs ip)) (vm.regs bp) h

entered-above :
    (vm : Vm) (q : ℕ)
    → Room vm 2
    → vm.regs sp - 8 ≤ q
    → (entered vm).ram q ≡ (pushed vm (vm.regs ip)).ram q
entered-above vm q (r, s, t) h =
    pushed-above (pushed vm (vm.regs ip)) (vm.regs bp) q (omega arith, omega arith, t) h

entered-ip :
    (vm : Vm)
    → Room vm 2
    → vm.regs ip < u64_mod
    → ram_value (entered vm).ram (vm.regs sp - 8) 8 ≡ vm.regs ip
entered-ip vm r h =
    ram_value_congr (entered vm).ram (pushed vm (vm.regs ip)).ram (vm.regs sp - 8) 8
      (λ q p t. entered-above vm q r p)
    ∙ pushed-value vm (vm.regs ip) h

entered-args :
    (vm : Vm)
    → Room vm 2
    → ram_value (entered vm).ram (vm.regs sp) 8 ≡ ram_value vm.ram (vm.regs sp) 8
entered-args vm (r, s, t) = ram_value_congr (entered vm).ram vm.ram (vm.regs sp) 8 (λ q p k.
    entered-above vm q (r, s, t) (omega arith)
    ∙ pushed-above vm (vm.regs ip) q (omega arith, s, t) p)

-- The calling convention. A caller has pushed `n` values, fewer than 256, and their number: they fit
-- below the end of the memory, and there is room for the frame (`sb + 16 < sp`, `sp` at most the size,
-- the size below 2 ^ 32). `ip` and `bp` are 64-bit words. Then `enter_frame` succeeds. Of any later
-- machine of the same size whose `bp` is the frame's, `sp - 16`, and whose 24 bytes from there are as
-- `enter_frame` left them, whatever else it has in its registers and its memory, `leave_frame`
-- succeeds, gives the caller its `ip` and `bp` back, drops the number and the values, and changes no
-- memory.
pub leave_frame-enter_frame :
    (vm vm2 : Vm) (n : ℕ)
    → Room vm 2
    → vm.regs ip < u64_mod
    → vm.regs bp < u64_mod
    → ram_value vm.ram (vm.regs sp) 8 ≡ n
    → n < u8_mod
    → vm.regs sp + 8 + n * 8 ≤ vm.size
    → vm2.size ≡ vm.size
    → vm2.regs bp ≡ vm.regs sp - 16
    → ((q : ℕ) → vm.regs sp - 16 ≤ q → q < vm.regs sp + 8 → vm2.ram q ≡ (entered vm).ram q)
    → (enter_frame vm ≡ ok (entered vm))
      × ((vm3 : Vm) × (leave_frame vm2 ≡ ok vm3)
          × (vm3.regs sp ≡ vm.regs sp + 8 + n * 8)
          × (vm3.regs ip ≡ vm.regs ip)
          × (vm3.regs bp ≡ vm.regs bp)
          × (vm3.ram ≡ vm2.ram))
leave_frame-enter_frame vm vm2 n (r, t, z) hi hb en u hs ez eb same =
    let same8 : (a : ℕ)
        → vm.regs sp - 16 ≤ a
        → a ≤ vm.regs sp
        → ram_value vm2.ram a 8 ≡ ram_value (entered vm).ram a 8 =
      λ a p k.
        ram_value_congr vm2.ram (entered vm).ram a 8
          (λ q c d. same q (omega arith) (omega arith)) in
    let b = vm.regs sp - 16 in
    let b1 : b + 8 ≡ vm.regs sp - 8 = omega arith in
    let b2 : b + 8 + 8 ≡ vm.regs sp = omega arith in
    let b0 : b ≡ vm.regs sp - 8 - 8 = omega arith in
    let saved_bp =
      same8 b (omega arith) (omega arith)
      ∙ ap (λ a. ram_value (entered vm).ram a 8) b0
      ∙ entered-bp vm hb in
    let saved_ip =
      same8 (b + 8) (omega arith) (omega arith)
      ∙ ap (λ a. ram_value (entered vm).ram a 8) b1
      ∙ entered-ip vm (r, t, z) hi in
    let nargs =
      same8 (b + 8 + 8) (omega arith) (omega arith)
      ∙ ap (λ a. ram_value (entered vm).ram a 8) b2
      ∙ entered-args vm (r, t, z)
      ∙ en in
    let (vm3, e, s, i, p, m) = leave_frame-ok vm2 b n eb nargs u (omega arith) (omega arith) in
    (enter_frame-entered vm (r, t, z), (vm3, e, s ∙ (omega arith), i ∙ saved_ip, p ∙ saved_bp, m))
