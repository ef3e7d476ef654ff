-- ===== src/Asm/Symbols.antt =====
-- The symbols and the data of the assembler (src/compiler/asm/asm.c).
use cyntatic.Prelude.{
  ℕ, zero, suc, ◌%◌, Bool, true, false, Option, some, none, List, [], ◌∷◌, ◌++◌, length,
  if◌then◌else◌,
}
use cyntatic.Word.{u32_mod}
use cyntatic.Source.{Range}
use cyntatic.Vm.Value.{mode_size, le_bytes}
use cyntatic.Vm.Builder.{SymbolTag, same_name, add_patch, is_label}
use cyntatic.Asm.State.{AsmSymbol, Asm, Act, pure, gets, puts, fail, view, asserted, ◌>>=◌, ◌>>◌}

-- `RbTree_find_` on the symbols.
unfoldable pub look_up : List (List ℕ × AsmSymbol) → List ℕ → Option AsmSymbol
unfolding same_name
look_up [] name = none
look_up ((n, s) ∷ rest) name = if same_name n name then some s else look_up rest name

-- `Assembler_find_symbol`.
unfoldable pub find_symbol : Range → Asm AsmSymbol
find_symbol r = do
  name ← view r
  found ← gets (λ s. look_up s.symbols name)
  elim found as (λ o. Asm AsmSymbol) [ none ↦ fail | some sym ↦ pure sym ]

-- The entry that `RbTree_get0` writes.
abbrev pub put_symbol : List ℕ → AsmSymbol → Act
put_symbol name sym = puts (λ s. record s { symbols = s.symbols ++ (name, sym) ∷ [] })

-- `Assembler_add_symbol`; a call behind it gives the symbol its size.
unfoldable pub add_symbol : ℕ → SymbolTag → Range → Act
add_symbol pos tag r = do
  name ← view r
  found ← gets (λ s. look_up s.symbols name)
  elim found as (λ o. Act) [
    | some sym ↦ fail
    | none ↦ put_symbol name (record { id = pos; size = 0; tag = tag })
  ]

-- `RbTree_add` on the patches.
abbrev pub put_patch : ℕ → List ℕ → Act
put_patch pos name = puts (λ s. record s { patch_work = add_patch pos name s.patch_work })

-- The part of `Assembler_add_symbol_reference` for a label, or a name that is no symbol yet.
unfoldable pub later : ℕ → List ℕ → Bool → Asm ℕ
later pos name to_patch_work = if to_patch_work then (put_patch pos name >> pure 0) else fail

-- `Assembler_add_symbol_reference`: the value of the reference.
unfoldable pub add_symbol_reference : ℕ → Range → Bool → Asm ℕ
add_symbol_reference pos r to_patch_work = do
  name ← view r
  found ← gets (λ s. look_up s.symbols name)
  elim found as (λ o. Asm ℕ) [
    | none ↦ later pos name to_patch_work
    | some sym ↦ if is_label sym.tag then later pos name to_patch_work else pure (sym.id % u32_mod)
  ]

abbrev pub is_var : SymbolTag → Bool
is_var SymbolTag.var_tag = true
is_var t = false

-- `Assembler_get_variable_size`.
unfoldable pub get_variable_size : Range → Asm ℕ
get_variable_size r = do
  name ← view r
  found ← gets (λ s. look_up s.symbols name)
  elim found as (λ o. Asm ℕ) [
    | none ↦ fail
    | some sym ↦ if is_var sym.tag then pure (sym.size % u32_mod) else fail
  ]

-- `Vector_push` and `Vector_pushArr` on the data.
abbrev pub push_data : List ℕ → Act
push_data bs = puts (λ s. record s { constants = s.constants ++ bs })

-- `Assembler_append_integral_data`, for one of the four modes: the size.
unfoldable pub append_integral_data : ℕ → ℕ → Asm ℕ
append_integral_data value mode = do
  size ← asserted (mode_size mode)
  push_data (le_bytes size value)
  pure size

-- What `n` bytes hold that nothing has written yet, from the place `i` on.
unfoldable pub spare_bytes : (ℕ → ℕ) → ℕ → ℕ → List ℕ
spare_bytes spare i zero = []
spare_bytes spare i (suc n) = spare i ∷ spare_bytes spare (suc i) n

-- `Vector_expand(&as->constants, n)`.
unfoldable pub expand_data : ℕ → Act
expand_data n =
    puts (λ s. record s { constants = s.constants ++ spare_bytes s.spare (length s.constants) n })

-- The symbol of a name, with its size.
unfoldable pub with_size : List ℕ → ℕ → List (List ℕ × AsmSymbol) → List (List ℕ × AsmSymbol)
with_size name size [] = []
with_size name size ((n, sym) ∷ rest) =
    (n, if same_name n name then record sym { size = size } else sym) ∷ with_size name size rest

-- `sym->size = size;`.
unfoldable pub set_size : List ℕ → ℕ → Act
set_size name size = puts (λ s. record s { symbols = with_size name size s.symbols })
