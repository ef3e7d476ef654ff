-- ===== src/Vm/Builder.antt =====
-- The code builder and its linker (src/vm/builder.c). The trees of the builder are the lists of their
-- entries: the symbols by name, the patches by the index of their instruction, in ascending order.
pub mod Link
pub mod Distance
mod Tests
use cyntatic.Prelude.{
  ℕ, zero, suc, ◌+◌, ◌-◌, ◌%◌, Bool, true, false, ◌&&◌, ◌||◌, Option, some, none, List, [], ◌∷◌,
  ◌++◌, ltb, leb, ◌==◌, if◌then◌else◌, length, get_elem?,
}
use cyntatic.Word.{add32, u32_mod, u64_mod}
use cyntatic.Vm.Run.{Run, ok, fault, ◌>>=◌}
use cyntatic.Vm.Value.{mode_size, le_bytes}
use cyntatic.Vm.Instr.{Instruction}
use cyntatic.Vm.Code.{has_imm, code_append}

-- `SymbolTag`.
pub data SymbolTag : Type 0 where
  label_tag var_tag define_tag : SymbolTag

-- `Symbol`, without the range, which only messages use.
pub record Symbol : Type 0 where
  pub id : ℕ
  pub tag : SymbolTag

-- `Builder`. A patch is the index of an instruction with the name that its range views; `errors` is
-- the count of the log.
pub record Builder : Type 0 where
  pub main : ℕ
  pub constants : List ℕ
  pub instructions : List Instruction
  pub symbols : List (List ℕ × Symbol)
  pub patch_work : List (ℕ × List ℕ)
  pub errors : ℕ

-- `Ident_equals`: names are interned.
unfoldable pub same_name : List ℕ → List ℕ → Bool
same_name [] [] = true
same_name [] (d ∷ t) = false
same_name (c ∷ s) [] = false
same_name (c ∷ s) (d ∷ t) = c == d && same_name s t

-- `RbTree_find_` on the symbols.
unfoldable pub look_up : List (List ℕ × Symbol) → List ℕ → Option Symbol
unfolding same_name
look_up [] name = none
look_up ((n, s) ∷ rest) name = if same_name n name then some s else look_up rest name

-- `Builder_findSymbol`; `none` is `ITP_fail`, which ends the program.
unfoldable pub find_symbol : Builder → List ℕ → Option Symbol
unfolding look_up
find_symbol b name = look_up b.symbols name

-- `Builder_addSymbol`, and `Builder_define` with the tag `define_tag`.
unfoldable pub add_symbol : Builder → ℕ → SymbolTag → List ℕ → Option Builder
unfolding look_up
add_symbol b pos tag name = elim (look_up b.symbols name) [
  | some s ↦ none
  | none ↦ some (record b { symbols = b.symbols ++ (name, record { id = pos; tag = tag }) ∷ [] })
]

abbrev pub is_label : SymbolTag → Bool
is_label SymbolTag.label_tag = true
is_label t = false

-- `RbTree_add` on the patches: behind the entries of the same index.
unfoldable pub add_patch : ℕ → List ℕ → List (ℕ × List ℕ) → List (ℕ × List ℕ)
add_patch pos name [] = (pos, name) ∷ []
add_patch pos name ((p, n) ∷ rest) =
    if ltb pos p then (pos, name) ∷ (p, n) ∷ rest else (p, n) ∷ add_patch pos name rest

-- The part of `Builder_addSymbolReference` for a label, or a name that is no symbol yet.
unfoldable pub later : Builder → ℕ → List ℕ → Bool → Option (ℕ × Builder)
unfolding add_patch
later b pos name to_patch_work =
    if to_patch_work
    then some (0, record b { patch_work = add_patch pos name b.patch_work })
    else none

-- `Builder_addSymbolReference`: the value of the reference.
unfoldable pub add_symbol_reference : Builder → ℕ → List ℕ → Bool → Option (ℕ × Builder)
unfolding look_up later
add_symbol_reference b pos name to_patch_work = elim (look_up b.symbols name) [
  | none ↦ later b pos name to_patch_work
  | some s ↦ if is_label s.tag then later b pos name to_patch_work else some (s.id % u32_mod, b)
]

-- `Builder_appendInstruction_`.
abbrev pub append_instruction : Builder → Instruction → Builder
append_instruction b i = record b { instructions = b.instructions ++ i ∷ [] }

-- `sizeof(CodeHeader)`.
abbrev pub header_size : ℕ
header_size = 16

-- `Builder_appendString_`.
abbrev pub append_string : Builder → List ℕ → ℕ × Builder
append_string b s = (length b.constants + header_size, record b { constants = b.constants ++ s })

-- `Builder_appendIntegralData`, for one of the four modes.
unfoldable pub append_integral_data : Builder → ℕ → ℕ → Option (ℕ × Builder)
append_integral_data b value mode = elim (mode_size mode) [
  | none ↦ none
  | some size ↦ some (size, record b { constants = b.constants ++ le_bytes size value })
]

-- The first loop of `Builder_link`: the index of the target and that of the reference, for each patch
-- whose symbol is a label, and the number of patches whose symbol is missing. A missing one is the
-- error that the loop logs.
unfoldable pub references : List (List ℕ × Symbol) → List (ℕ × List ℕ) → List (ℕ × ℕ) × ℕ
unfolding look_up
references symbols [] = ([], 0)
references symbols ((pos, name) ∷ rest) =
    let (refs, missing) = references symbols rest in
    elim (look_up symbols name) [
      | none ↦ (refs, suc missing)
      | some s ↦ if is_label s.tag then ((s.id % u32_mod, pos) ∷ refs, missing) else (refs, missing)
    ]

-- The instruction at an index, changed.
unfoldable pub modify : ℕ → (Instruction → Instruction) → List Instruction → List Instruction
modify j f [] = []
modify zero f (i ∷ is) = f i ∷ is
modify (suc j) f (i ∷ is) = i ∷ modify j f is

-- `instr->ii -= ip` and `ins->ii += ip`, of a `u32`.
abbrev pub minus_ip : ℕ → Instruction → Instruction
minus_ip ip i = record i { ii = (i.ii + u64_mod - ip) % u64_mod }

abbrev pub plus_ip : ℕ → Instruction → Instruction
plus_ip ip i = record i { ii = (i.ii + ip) % u64_mod }

-- `RbTree_find_` on the patches.
unfoldable pub is_patched : ℕ → List (ℕ × List ℕ) → Bool
is_patched i [] = false
is_patched i ((p, n) ∷ rest) = p == i || is_patched i rest

-- The references to the instruction `i`.
unfoldable pub add_to_references : List (ℕ × ℕ) → ℕ → ℕ → List Instruction → List Instruction
unfolding modify
add_to_references [] i ip is = is
add_to_references ((t, j) ∷ refs) i ip is =
    add_to_references refs i ip (if t == i then modify j (plus_ip ip) is else is)

-- The bytes by which the loop moves `ip` for an instruction. The mode field has two bits.
unfoldable pub counted_size : Instruction → ℕ
counted_size i = elim (mode_size i.ims) [
  | some n ↦ if has_imm i then i.osz + n else i.osz
  | none ↦ i.osz
]

abbrev pub size_of : Option Instruction → ℕ
size_of (some x) = counted_size x
size_of none = 0

-- The second loop of `Builder_link`, for `n` instructions from the index `i` on.
unfoldable pub link_loop :
    List (ℕ × List ℕ) → List (ℕ × ℕ) → ℕ → ℕ → ℕ → List Instruction → List Instruction
unfolding is_patched add_to_references modify counted_size
link_loop patches refs zero i ip is = is
link_loop patches refs (suc n) i ip is =
    let taken = if is_patched i patches then modify i (minus_ip ip) is else is in
    let given = add_to_references refs i ip taken in
    link_loop patches refs n (suc i) (add32 ip (size_of (get_elem? given i))) given

-- `CodeHeader`, as `Builder_link` fills it.
abbrev pub header_bytes : ℕ → ℕ → ℕ → List ℕ
header_bytes size db main = le_bytes 8 size ++ (le_bytes 4 db ++ le_bytes 4 main)

-- The instructions with their offsets, and the code behind the data that ends at `db`.
unfoldable pub linked : Builder → List (ℕ × ℕ) → ℕ → Run (List ℕ)
unfolding link_loop code_append
linked b refs db = do
  bs ← code_append [] (link_loop b.patch_work refs (length b.instructions) 0 db b.instructions)
  ok (header_bytes (db + length bs) db (add32 db b.main) ++ (b.constants ++ bs))

-- `Builder_link` into an empty vector: the code.
unfoldable pub link : Builder → Run (List ℕ)
unfolding references linked
link b =
    let (refs, missing) = references b.symbols b.patch_work in
    if ltb 0 (b.errors + missing) then ok [] else linked b refs (header_size + length b.constants)
