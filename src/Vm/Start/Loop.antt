-- ===== src/Vm/Start/Loop.antt =====
-- The loop of `VM_run` (src/vm/vm.c): a round on assembled code, and the rounds that a run takes.
use cyntatic.Prelude.{
  ℕ, zero, suc, ◌+◌, ◌≡◌, ◌≢◌, sym, ap, ◌∙◌, inl, inr, Bool, false, List, ◌++◌, arith, ltb, length,
  Bool-cases, if_true, if_false,
}
use cyntatic.Vm.Run.{Run, ok, Run-cases}
use cyntatic.Vm.Instr.{Instruction}
use cyntatic.Vm.Code.{encode, fetch}
use cyntatic.Vm.Code.Decode.{IsForm, decoded, instruction_at-encode}
use cyntatic.Vm.Code.Fetch.{fetch-instruction_at}
use cyntatic.Vm.State.{Vm, set_reg, ip}
use cyntatic.Vm.Exec.{execute}
use cyntatic.Vm.Start.{step, run_loop}

module _ (native : ℕ → Vm → ℕ → ℕ → Run Vm) where
  -- Where the instruction pointer stands at the bytes that `VM_code_append_` writes for an instruction of
  -- the macros (without arguments, with one, or with two of which the first is in a register), a round
  -- executes that instruction, with its immediate cut to the bytes of its mode and
  -- sign extended and the mode of a lone immediate in `ims`, and with the instruction pointer moved
  -- behind it.
  pub step-encode :
      {i : Instruction}
      → IsForm i
      → (bs : List ℕ) → encode i ≡ ok bs
      → (pre post : List ℕ) (vm : Vm) → vm.code ≡ pre ++ (bs ++ post)
      → vm.regs ip ≡ length pre
      → step native vm
        ≡ execute native (set_reg vm ip (length pre + length bs)) (decoded i) (length pre)
  unfolding step
  step-encode {i} f bs e pre post vm c at =
      let (bs', e', sized, read) = instruction_at-encode f in
      let same : bs' ≡ bs = cc in
      let fetched : fetch vm.code (vm.regs ip) ≡ ok (decoded i, length pre + length bs) =
        rw (c, at, sym same)
          (fetch-instruction_at (pre ++ (bs' ++ post)) (length pre) (read pre post) sized) in
      rw fetched (ap (execute native (set_reg vm ip (length pre + length bs)) (decoded i)) at)

  -- A run that ended, or that a fault stopped, is the same with more fuel.
  pub run_loop-more :
      (fuel more : ℕ) (vm : Vm) {r : Run (Bool × Vm)}
      → run_loop native fuel vm ≡ r
      → ((vm' : Vm) → r ≢ ok (false, vm'))
      → run_loop native (fuel + more) vm ≡ r
  unfolding run_loop
  run_loop-more zero more vm e n = absurd (n vm (sym e))
  run_loop-more (suc fuel) more vm e n =
      let w : suc fuel + more ≡ suc (fuel + more) = omega arith in
      elim (Bool-cases (ltb (vm.regs ip) (length vm.code))) [
        | inr out ↦ rw (w, out) (rw out at e)
        | inl within ↦ elim (Run-cases (step native vm)) [
          | inl (f, s) ↦ rw (w, within, s) (rw (within, s) at e)
          | inr (vm1, s) ↦ elim (Bool-cases vm1.halted) [
            | inl h ↦ rw (w, within, s) (if_true _ h ∙ sym (if_true _ h) ∙ (rw (within, s) at e))
            | inr h ↦
                rw (w, within, s)
                  (if_false _ h
                    ∙ run_loop-more fuel more vm1 (sym (if_false _ h) ∙ (rw (within, s) at e)) n)
          ]
        ]
      ]
