-- ===== src/Vm/Code/Fetch.antt =====
-- The machine's `VM_fetch` (src/vm/vm.c) reads the instruction that the disassembler's
-- `VM_code_instruction_at` (src/vm/code.c) reads.
use cyntatic.Prelude.{
  ℕ, zero, suc, ◌+◌, ◌-◌, ◌≤◌, ◌<◌, ◌≡◌, refl, ap, inl, inr, Bool-cases, Option-cases, false, ◌&&◌,
  some, List, [], ◌∷◌, arith, ltb, leb, ◌==◌, if◌then◌else◌, length, drop,
}
use cyntatic.Vm.Run.{ok, ◌>>=◌, defined}
use cyntatic.Vm.Value.{mode_size, le_read, sign_extend}
use cyntatic.Vm.Instr.{Instruction, zero_instruction, set_b1, set_b2, set_b3}
use cyntatic.Vm.Code.{
  has_imm, take_mode, moved, decode_value, fetch_value, decode_imm, decode_b3, decode_b2, decode,
  instruction_at, fetch_imm, fetch_b3, fetch_b2, fetch_at, fetch,
}

le_read_short : (n : ℕ) (bs : List ℕ) {v : ℕ} → le_read n bs ≡ some v → n ≤ length bs
unfolding le_read
le_read_short zero bs e = omega arith
le_read_short (suc n) [] e = cc
le_read_short (suc n) (b ∷ bs) e = elim (Option-cases (le_read n bs)) [
  | inl nothing ↦ absurd (cc (rw nothing at e))
  | inr (v, found) ↦ omega (arith, le_read_short n bs found)
]

length_of_drop :
    (ip : ℕ) (code : List ℕ) {b : ℕ} {rest : List ℕ}
    → drop ip code ≡ b ∷ rest
    → length code ≡ ip + 1 + length rest
length_of_drop zero [] e = cc
length_of_drop zero (c ∷ cs) e = ground (arith, ap length e)
length_of_drop (suc ip) [] e = cc
length_of_drop (suc ip) (c ∷ cs) e = omega (arith, length_of_drop ip cs e)

value_agree :
    (code : List ℕ) (i : Instruction) (ip n : ℕ) (rest : List ℕ) {r : Instruction × ℕ}
    → length code ≡ ip + n + length rest
    → decode_value i n rest ≡ ok r
    → fetch_value code i (ip + n) rest ≡ ok (r.0, ip + r.1)
unfolding decode_value fetch_value
value_agree code i ip n rest {r} len e = elim (Option-cases (mode_size i.ims)) [
  | inl no_mode ↦ absurd (cc (rw no_mode at e))
  | inr (size, mode) ↦ elim (Option-cases (le_read size rest)) [
    | inl short ↦ absurd (cc (rw (mode, defined, ◌>>=◌, short) at e))
    | inr (v, found) ↦
        let d : ok (record i { ii = sign_extend size v }, n + size) ≡ ok r =
          rw (mode, defined, ◌>>=◌, found) at e in
        let inside : ltb (length code) (ip + n + size) ≡ false =
          ground (arith, le_read_short size rest found) in
        rw (mode, defined, ◌>>=◌, found) (rw inside (ground arith))
  ]
]

imm_agree :
    (code : List ℕ) (i j : Instruction) (ip n : ℕ) (rest : List ℕ) {r : Instruction × ℕ}
    → has_imm j ≡ has_imm i
    → j ≡ (if has_imm i then (if i.osz == 2 then take_mode i else i) else i)
    → length code ≡ ip + n + length rest
    → decode_imm j n rest ≡ ok r
    → fetch_imm code i (ip + n) rest ≡ ok (r.0, ip + r.1)
unfolding decode_imm fetch_imm
imm_agree code i j ip n rest {r} same shape len e = elim (Bool-cases (has_imm i)) [
  | inl t ↦
      let shaped : j ≡ (if i.osz == 2 then take_mode i else i) = rw t at shape in
      let d : decode_value j n rest ≡ ok r = rw (same, t) at e in
      rw (t, ← shaped) (value_agree code j ip n rest len d)
  | inr f ↦
      let shaped : j ≡ i = rw f at shape in
      let d : ok (j, n) ≡ ok r = rw (same, f) at e in
      let inside : ltb (length code) (ip + n) ≡ false = ground arith in
      rw (f, inside) (ground arith)
]

b3_agree :
    (code : List ℕ) (i : Instruction) (ip : ℕ) (rest : List ℕ) {r : Instruction × ℕ}
    → (i.osz == 2) ≡ false
    → length code ≡ ip + 1 + 1 + length rest
    → decode_b3 i rest ≡ ok r
    → fetch_b3 code i (ip + 1 + 1) rest ≡ ok (r.0, ip + r.1)
unfolding decode_b3 fetch_b3
b3_agree code i ip [] two len e = cc
b3_agree code i ip (b ∷ rest) two len e =
    let j = set_b3 i b in
    let at : ip + 1 + 1 + 1 ≡ ip + 3 = omega arith in
    let shape : j ≡ (if has_imm j then (if j.osz == 2 then take_mode j else j) else j) =
      rw two (ground arith) in
    rw at (imm_agree code j j ip 3 rest refl shape (omega arith) e)

osz-moved : (i : Instruction) → (moved i).osz ≡ i.osz
unfolding moved
osz-moved i = elim (Bool-cases (i.osz == 2 && i.rmd == 1)) [ inl t ↦ rw t | inr f ↦ rw f ]

moved_other : (i : Instruction) → (i.osz == 2) ≡ false → moved i ≡ i
unfolding moved
moved_other i e = rw e

has_imm-moved : (i : Instruction) → has_imm (moved i) ≡ has_imm i
unfolding moved take_mode
has_imm-moved i = elim (Bool-cases (i.osz == 2 && i.rmd == 1)) [ inl t ↦ rw t | inr f ↦ rw f ]

moved_shape :
    (i : Instruction)
    → i.iea ≡ 0
    → moved i ≡ (if has_imm i then (if i.osz == 2 then take_mode i else i) else i)
unfolding moved
moved_shape i z =
    let no_offset : (i.iea == 1) ≡ false = ground arith in
    elim (Bool-cases (i.rmd == 1)) [
      | inl imm ↦ elim (Bool-cases (i.osz == 2)) [
        | inl two ↦ rw (imm, two)
        | inr other ↦ rw (imm, other)
      ]
      | inr reg ↦ elim (Bool-cases (i.osz == 2)) [
        | inl two ↦ rw (reg, two, no_offset)
        | inr other ↦ rw (reg, other, no_offset)
      ]
    ]

-- From the second byte on.
b2_agree :
    (code : List ℕ) (i : Instruction) (ip : ℕ) (rest : List ℕ) {r : Instruction × ℕ}
    → i.iea ≡ 0
    → length code ≡ ip + 1 + length rest
    → decode_b2 i rest ≡ ok r
    → fetch_b2 code i (ip + 1) rest ≡ ok (r.0, ip + r.1)
unfolding decode_b2 fetch_b2
b2_agree code i ip [] z len e = cc
b2_agree code i ip (b ∷ rest) {r} z len e =
    let j = set_b2 i b in
    let osz : (moved j).osz ≡ i.osz = osz-moved j in
    elim (Bool-cases (i.osz == 3)) [
      | inl three ↦
          let two : (i.osz == 2) ≡ false = ground arith in
          let d : decode_b3 j rest ≡ ok r = rw (moved_other j two, three) at e in
          rw three (b3_agree code j ip rest two (omega arith) d)
      | inr other ↦
          let test : ((moved j).osz == 3) ≡ false = rw osz other in
          let d : decode_imm (moved j) 2 rest ≡ ok r = rw test at e in
          let at : ip + 1 + 1 ≡ ip + 2 = omega arith in
          rw (other, at)
            (imm_agree code j (moved j) ip 2 rest (has_imm-moved j) (moved_shape j z) (omega arith)
              d)
    ]

at_agree :
    (code : List ℕ) (ip : ℕ) (bs : List ℕ) {i : Instruction} {n : ℕ}
    → length code ≡ ip + length bs
    → decode bs ≡ ok (i, n)
    → 0 < n
    → fetch_at code ip bs ≡ ok (i, ip + n)
unfolding decode fetch_at
at_agree code ip [] len e pos = absurd (ground arith)
at_agree code ip (b ∷ rest) {i} {n} len e pos =
    let j = set_b1 zero_instruction b in
    elim (Bool-cases (ltb (length rest + 1) j.osz)) [
      | inl short ↦ absurd (ground arith)
      | inr whole ↦ elim (Bool-cases (leb j.osz 1)) [
        | inl bare ↦ ground arith
        | inr args ↦
            let d : decode_b2 j rest ≡ ok (i, n) = rw (whole, args) at e in
            let one : (j.osz == 1) ≡ false = ground arith in
            let inside : ltb (length code) (ip + 1 + j.osz - 1) ≡ false = ground arith in
            rw (one, inside) (b2_agree code j ip rest refl (omega arith) d)
      ]
    ]

length-drop :
    (ip : ℕ) (code : List ℕ) → 0 < length (drop ip code) → length code ≡ ip + length (drop ip code)
length-drop zero code h = omega arith
length-drop (suc ip) [] h = absurd (omega arith)
length-drop (suc ip) (c ∷ cs) h = omega (arith, length-drop ip cs h)

decode_nonempty :
    (bs : List ℕ) {i : Instruction} {n : ℕ} → decode bs ≡ ok (i, n) → 0 < n → 0 < length bs
unfolding decode
decode_nonempty [] e pos = absurd (ground arith)
decode_nonempty (b ∷ bs) e pos = omega arith

-- Wherever the disassembler reads an instruction of some size, the machine fetches the same
-- instruction there and moves its instruction pointer by that size.
pub fetch-instruction_at :
    (code : List ℕ) (ip : ℕ) {i : Instruction} {n : ℕ}
    → instruction_at code ip ≡ ok (i, n)
    → 0 < n
    → fetch code ip ≡ ok (i, ip + n)
unfolding instruction_at fetch
fetch-instruction_at code ip e pos =
    at_agree code ip (drop ip code) (length-drop ip code (decode_nonempty (drop ip code) e pos)) e
      pos
