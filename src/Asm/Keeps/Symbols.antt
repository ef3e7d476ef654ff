-- ===== src/Asm/Keeps/Symbols.antt =====
-- What the functions on symbols and data keep (src/compiler/asm/asm.c).
use cyntatic.Prelude.{ℕ, ◌%◌, ◌<◌, ◌≡◌, Bool, true, false, List, length, arith}
use cyntatic.Word.{u32_mod}
use cyntatic.Source.{Range}
use cyntatic.Lexer.State.{Stop}
use cyntatic.Vm.Value.{mode_size}
use cyntatic.Vm.Builder.{SymbolTag, add_patch, is_label}
use cyntatic.Asm.State.{Assembler, view, fail, pure, asserted}
use cyntatic.Asm.Symbols.{
  look_up, put_symbol, add_symbol, later, add_symbol_reference, is_var, get_variable_size,
  append_integral_data, expand_data, set_size,
}
use cyntatic.Asm.Keeps.{
  Any, Law, Keeps, Post-bind, Post-if, Post-option, fail-Keeps, asserted-Keeps, view-Keeps,
}

-- The value of a `u32`.
abbrev pub IsU32 : ℕ → Type 0
IsU32 v = v < u32_mod

-- While an argument is read there are `n` instructions, and a patch for the next one keeps `P`.
pub record PatchLaw (P : Assembler → Type 0) (n : ℕ) : Type 0 where
  pub fixed : (s : Assembler) → P s → length s.instructions ≡ n
  pub patches :
      (s : Assembler) (name : List ℕ)
      → P s
      → P (record s { patch_work = add_patch n name s.patch_work })

module _ (P T : Assembler → Type 0) (H : Stop → Type 0) (law : Law P T H) where
  pub add_symbol-Keeps :
      (pos : ℕ) (tag : SymbolTag) (r : Range) → Keeps P T H Any (add_symbol pos tag r)
  unfolding add_symbol
  add_symbol-Keeps pos tag r s h =
      Post-bind P T H P Any Any _ (view r s) (view-Keeps P T H law r s h) (λ name s' u h'.
        Post-option P T H Any (put_symbol name _) (λ sym. fail) s' (look_up s'.symbols name)
          (λ e. (_, law.names s' _ h')) (λ sym e. fail-Keeps P T H law Any s' h'))

  pub get_variable_size-Keeps : (r : Range) → Keeps P T H IsU32 (get_variable_size r)
  unfolding get_variable_size
  get_variable_size-Keeps r s h =
      Post-bind P T H P Any IsU32 _ (view r s) (view-Keeps P T H law r s h) (λ name s' u h'.
        Post-option P T H IsU32 fail _ s' (look_up s'.symbols name)
          (λ e. fail-Keeps P T H law IsU32 s' h')
          (λ sym e.
            Post-if P T H IsU32 (pure (sym.size % u32_mod)) fail s' (is_var sym.tag)
              (λ e'. (omega arith, h')) (λ e'. fail-Keeps P T H law IsU32 s' h')))

  pub append_integral_data-Keeps : (v mode : ℕ) → Keeps P T H Any (append_integral_data v mode)
  unfolding append_integral_data
  append_integral_data-Keeps v mode s h =
      Post-bind P T H P Any Any _ (asserted (mode_size mode) s)
        (asserted-Keeps P T H law Any (mode_size mode) (λ n e. _) s h)
        (λ n s' u h'. (_, law.stores s' _ h'))

  pub expand_data-Keeps : (n : ℕ) → Keeps P T H Any (expand_data n)
  unfolding expand_data
  expand_data-Keeps n s h = (_, law.stores s _ h)

  pub set_size-Keeps : (name : List ℕ) (size : ℕ) → Keeps P T H Any (set_size name size)
  unfolding set_size
  set_size-Keeps name size s h = (_, law.names s _ h)

  module _ (n : ℕ) (patch : PatchLaw P n) where
    later-Keeps : (name : List ℕ) (b : Bool) → Keeps P T H IsU32 (later n name b)
    unfolding later
    later-Keeps name true s h = (omega arith, patch.patches s name h)
    later-Keeps name false s h = fail-Keeps P T H law IsU32 s h

    pub add_symbol_reference-Keeps :
        (r : Range) (b : Bool) → Keeps P T H IsU32 (add_symbol_reference n r b)
    unfolding add_symbol_reference
    add_symbol_reference-Keeps r b s h =
        Post-bind P T H P Any IsU32 _ (view r s) (view-Keeps P T H law r s h) (λ name s' u h'.
          Post-option P T H IsU32 (later n name b) _ s' (look_up s'.symbols name)
            (λ e. later-Keeps name b s' h')
            (λ sym e.
              Post-if P T H IsU32 (later n name b) (pure (sym.id % u32_mod)) s' (is_label sym.tag)
                (λ e'. later-Keeps name b s' h') (λ e'. (omega arith, h'))))
