-- ===== src/Vm/Code.antt =====
-- Instructions in the code vector: src/vm/code.c, and `VM_fetch` of src/vm/vm.c. Code is a list of
-- bytes; a read past its end has no defined result.
pub mod Decode
pub mod Fetch
use cyntatic.Prelude.{
  ℕ, zero, suc, ◌+◌, ◌-◌, ◌%◌, Bool, true, false, not, ◌&&◌, ◌||◌, Option, some, none, List, [],
  ◌∷◌, ◌++◌, ltb, leb, ◌==◌, if◌then◌else◌, length, drop,
}
use cyntatic.Vm.Run.{Run, ok, fault, beyond_code, undefined, ◌>>=◌, defined}
use cyntatic.Vm.Value.{mode_size, le_bytes, le_read, sign_extend}
use cyntatic.Vm.Instr.{Instruction, zero_instruction, b1, b2, b3, set_b1, set_b2, set_b3}

-- The instruction carries an immediate.
abbrev pub has_imm : Instruction → Bool
has_imm i = i.rmd == 1 || i.iea == 1

-- The immediate as `VM_code_append_` writes it; a mode beyond `vmSizeTbl` is a read past that array.
unfoldable pub imm_bytes : Instruction → Run (List ℕ)
imm_bytes i = do n ← defined (mode_size (if i.osz == 2 then i.ra else i.ims)); ok (le_bytes n i.ii)

-- The bytes that one round of `VM_code_append_` pushes.
unfoldable pub encode : Instruction → Run (List ℕ)
unfolding b1 b2 b3 imm_bytes
encode i =
    let op =
      b1 i ∷ ((if ltb 1 i.osz then b2 i ∷ [] else []) ++ (if ltb 2 i.osz then b3 i ∷ [] else [])) in
    if ltb 1 i.osz && has_imm i then (imm_bytes i >>= λ imm. ok (op ++ imm)) else ok op

-- `VM_code_append_`.
unfoldable pub code_append : List ℕ → List Instruction → Run (List ℕ)
unfolding encode
code_append code [] = ok code
code_append code (i ∷ seq) = encode i >>= λ bs. code_append (code ++ bs) seq

-- `instr->ims = instr->ra; instr->ra = 0;` : the mode field has two bits.
unfoldable pub take_mode : Instruction → Instruction
take_mode i = record i { ims = i.ra % 4; ra = 0 }

-- The switch on the mode of the immediate, which stands `n` bytes behind the first.
unfoldable pub decode_value : Instruction → ℕ → List ℕ → Run (Instruction × ℕ)
decode_value i n rest = do
  size ← defined (mode_size i.ims)
  v ← defined (le_read size rest)
  ok (record i { ii = sign_extend size v }, n + size)

unfoldable pub decode_imm : Instruction → ℕ → List ℕ → Run (Instruction × ℕ)
unfolding decode_value
decode_imm i n rest = if has_imm i then decode_value i n rest else ok (i, n)

unfoldable pub decode_b3 : Instruction → List ℕ → Run (Instruction × ℕ)
unfolding set_b3 decode_imm
decode_b3 i [] = fault undefined
decode_b3 i (b ∷ rest) = decode_imm (set_b3 i b) 3 rest

-- The mode of a lone immediate argument, after the second byte.
unfoldable pub moved : Instruction → Instruction
unfolding take_mode
moved i = if i.osz == 2 && i.rmd == 1 then take_mode i else i

unfoldable pub decode_b2 : Instruction → List ℕ → Run (Instruction × ℕ)
unfolding set_b2 decode_b3 decode_imm
decode_b2 i [] = fault undefined
decode_b2 i (b ∷ rest) =
    let i2 = moved (set_b2 i b) in if i2.osz == 3 then decode_b3 i2 rest else decode_imm i2 2 rest

-- `VM_code_instruction_at` on the bytes from its position on: the instruction, and its size.
unfoldable pub decode : List ℕ → Run (Instruction × ℕ)
unfolding set_b1 moved decode_b2
decode [] = ok (zero_instruction, 0)
decode (b ∷ rest) =
    let i = set_b1 zero_instruction b in
    if ltb (length rest + 1) i.osz
    then ok (record i { osz = 0 }, 0)
    else if leb i.osz 1
    then ok (i, i.osz)
    else decode_b2 i rest

-- `VM_code_instruction_at`.
unfoldable pub instruction_at : List ℕ → ℕ → Run (Instruction × ℕ)
unfolding decode
instruction_at code iip = decode (drop iip code)

-- The offset `db` of the first instruction, which the header holds (`CodeHeader`).
unfoldable pub header_db : List ℕ → Run ℕ
header_db code = defined (le_read 4 (drop 8 code))

-- The loop of `VM_code_disassemble_`, on fuel: the lines it prints, each the address and the
-- instruction.
unfoldable pub disassemble_from : ℕ → List ℕ → ℕ → Run (List (ℕ × Instruction))
unfolding instruction_at
disassemble_from zero code ip = ok []
disassemble_from (suc fuel) code ip =
    let lines = instruction_at code ip >>= λ r.
    (disassemble_from fuel code (if r.1 == 0 then ip + r.1 + 1 else ip + r.1) >>= λ rest.
    ok ((ip, r.0) ∷ rest)) in
    if ltb ip (length code) then lines else ok []

-- `VM_code_disassemble_`: each round advances by one byte at least, so the length is enough fuel.
unfoldable pub code_disassemble : List ℕ → Run (List (ℕ × Instruction))
unfolding header_db disassemble_from
code_disassemble code = header_db code >>= λ db. disassemble_from (length code) code db

-- The last test of `VM_fetch`, after the immediate.
unfoldable pub fetch_end : List ℕ → Instruction → ℕ → Run (Instruction × ℕ)
fetch_end code i ip = if ltb (length code) ip then fault beyond_code else ok (i, ip)

-- The immediate in `VM_fetch`; `rest` are the bytes from `ip` on.
unfoldable pub fetch_value : List ℕ → Instruction → ℕ → List ℕ → Run (Instruction × ℕ)
unfolding fetch_end
fetch_value code i ip rest = do
  size ← defined (mode_size i.ims)
  v ← defined (le_read size rest)
  fetch_end code (record i { ii = sign_extend size v }) (ip + size)

unfoldable pub fetch_imm : List ℕ → Instruction → ℕ → List ℕ → Run (Instruction × ℕ)
unfolding take_mode fetch_end fetch_value
fetch_imm code i ip rest =
    if has_imm i
    then fetch_value code (if i.osz == 2 then take_mode i else i) ip rest
    else fetch_end code i ip

unfoldable pub fetch_b3 : List ℕ → Instruction → ℕ → List ℕ → Run (Instruction × ℕ)
unfolding set_b3 fetch_imm
fetch_b3 code i ip [] = fault undefined
fetch_b3 code i ip (b ∷ rest) = fetch_imm code (set_b3 i b) (ip + 1) rest

unfoldable pub fetch_b2 : List ℕ → Instruction → ℕ → List ℕ → Run (Instruction × ℕ)
unfolding set_b2 fetch_b3 fetch_imm
fetch_b2 code i ip [] = fault undefined
fetch_b2 code i ip (b ∷ rest) =
    let i2 = set_b2 i b in
    if i2.osz == 3 then fetch_b3 code i2 (ip + 1) rest else fetch_imm code i2 (ip + 1) rest

-- The bytes from `ip` on, in `VM_fetch`. The `u64` sum of the second test wraps at `osz` 0.
unfoldable pub fetch_at : List ℕ → ℕ → List ℕ → Run (Instruction × ℕ)
unfolding set_b1 fetch_b2
fetch_at code ip [] = fault beyond_code
fetch_at code ip (b ∷ rest) =
    let i = set_b1 zero_instruction b in
    if i.osz == 1
    then ok (i, ip + 1)
    else if ltb (length code) (ip + 1 + i.osz - 1)
    then fault beyond_code
    else fetch_b2 code i (ip + 1) rest

-- `VM_fetch`: the instruction at `ip`, and the new `ip`.
unfoldable pub fetch : List ℕ → ℕ → Run (Instruction × ℕ)
unfolding fetch_at
fetch code ip = fetch_at code ip (drop ip code)
