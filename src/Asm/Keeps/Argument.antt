-- ===== src/Asm/Keeps/Argument.antt =====
-- What the functions on arguments keep, and the instruction that they return
-- (src/compiler/asm/asm.c).
use cyntatic.Prelude.{
  ℕ, ◌<◌, ◌≡◌, refl, ◌∙◌, Bool, true, false, [], ◌∷◌, if◌then◌else◌, arith, ◌==◌, Bool-cases, inl,
  inr,
}
use cyntatic.Word.{u64_mod}
use cyntatic.Source.{Range, extend}
use cyntatic.Token.{TokenKind, Token, get_int, get_char, get_float}
use cyntatic.Lexer.State.{Stop}
use cyntatic.Vm.Value.{integer_size}
use cyntatic.Vm.Instr.{Instruction, IsWord}
use cyntatic.Asm.State.{
  Assembler, pure, fail, error, advance, matches, consume, asserted, int_of, char_of, float_of,
}
use cyntatic.Asm.Symbols.{add_symbol_reference, get_variable_size}
use cyntatic.Asm.Argument.{
  parse_sign, is_sign, signed, integer_argument, immediate_argument, add_integer, symbol_argument,
  register_argument, named_offset, offset_value, parse_offset,
}
use cyntatic.Asm.Keeps.{
  Any, Law, Keeps, Post-bind, Post-if, Post-value, fail-Keeps, error-Keeps, asserted-Keeps,
  matches-Keeps, consume-Keeps,
}
use cyntatic.Asm.Keeps.Symbols.{
  IsU32, PatchLaw, get_variable_size-Keeps, add_symbol_reference-Keeps,
}

-- An instruction with an operand stored in it: the fields keep their widths, and the number of bytes
-- and the flag of the effective address stay.
pub record Operand (i i' : Instruction) : Type 0 where
  pub word : IsWord i'
  pub same_size : i'.osz ≡ i.osz
  pub same_offset : i'.iea ≡ i.iea

-- The same for an effective address, which sets the flag.
pub record Addressed (i i' : Instruction) : Type 0 where
  pub word : IsWord i'
  pub same_size : i'.osz ≡ i.osz

abbrev pub IsU64 : ℕ → Type 0
IsU64 v = v < u64_mod

integer_size-IsMode : (v : ℕ) → integer_size v < 4
unfolding integer_size
integer_size-IsMode v = ground arith

signed-IsU64 : (neg : Bool) (v : ℕ) → v < u64_mod → signed neg v < u64_mod
signed-IsU64 true v h = omega arith
signed-IsU64 false v h = h

operand :
    (i : Instruction) (rmd ims ii : ℕ)
    → IsWord i
    → rmd < 2
    → ims < 4
    → ii < u64_mod
    → Operand i (record i { rmd = rmd; ims = ims; ii = ii })
operand i rmd ims ii w a b c = record {
  word = record {
    osz = w.osz;
    opc = w.opc;
    ra = w.ra;
    iam = w.iam;
    rmd = a;
    imd = w.imd;
    ims = b;
    rb = w.rb;
    ibm = w.ibm;
    iea = w.iea;
    ii = c;
  };
  same_size = refl;
  same_offset = refl;
}

Operand-trans : {i j k : Instruction} → Operand i j → Operand j k → Operand i k
Operand-trans f g = record {
  word = g.word;
  same_size = g.same_size ∙ f.same_size;
  same_offset = g.same_offset ∙ f.same_offset;
}

-- The flag set.
addressed : {i j : Instruction} → Operand i j → Addressed i (record j { iea = 1 })
addressed f =
    let w = f.word in
    record {
      word = record {
        osz = w.osz;
        opc = w.opc;
        ra = w.ra;
        iam = w.iam;
        rmd = w.rmd;
        imd = w.imd;
        ims = w.ims;
        rb = w.rb;
        ibm = w.ibm;
        iea = omega arith;
        ii = w.ii;
      };
      same_size = f.same_size;
    }

module _ (P T : Assembler → Type 0) (H : Stop → Type 0) (law : Law P T H) where
  pub int_of-Keeps : (tok : Token) → Keeps P T H IsU64 (int_of tok)
  int_of-Keeps tok s h =
      Post-bind P T H P Any IsU64 _ (asserted (get_int tok) s)
        (asserted-Keeps P T H law Any (get_int tok) (λ n e. _) s h) (λ n s' u h'. (omega arith, h'))

  pub char_of-Keeps : (tok : Token) → Keeps P T H IsU32 (char_of tok)
  char_of-Keeps tok s h =
      Post-bind P T H P Any IsU32 _ (asserted (get_char tok) s)
        (asserted-Keeps P T H law Any (get_char tok) (λ n e. _) s h)
        (λ n s' u h'. (omega arith, h'))

  pub float_of-Keeps : (tok : Token) → Keeps P T H IsU64 (float_of tok)
  float_of-Keeps tok s h =
      Post-bind P T H P Any IsU64 _ (asserted (get_float tok) s)
        (asserted-Keeps P T H law Any (get_float tok) (λ n e. _) s h)
        (λ n s' u h'. (omega arith, h'))

  pub parse_sign-Keeps : Keeps P T H Any parse_sign
  unfolding parse_sign
  parse_sign-Keeps s h =
      Post-bind P T H P Any Any _ (matches (TokenKind.minus ∷ []) s) (matches-Keeps P T H law _ s h)
        (λ neg s' u h'.
          Post-if P T H Any _ _ s' neg (λ e. (_, h'))
            (λ e.
              Post-bind P T H P Any Any _ (matches (TokenKind.plus ∷ []) s')
                (matches-Keeps P T H law _ s' h') (λ x s'' u' h''. (_, h''))))

  integer_argument-Keeps :
      (neg : Bool) (tok : Token) (i : Instruction)
      → IsWord i
      → Keeps P T H (Operand i) (integer_argument neg tok i)
  unfolding integer_argument
  integer_argument-Keeps neg tok i w s h =
      Post-bind P T H P IsU64 (Operand i) _ (int_of tok s) (int_of-Keeps tok s h) (λ v s' small h'.
        (operand i 1 _ _ w (omega arith) (integer_size-IsMode v) (signed-IsU64 neg v small), h'))

  pub immediate_argument-Keeps :
      (k : TokenKind) (neg : Bool) (tok : Token) (i : Instruction)
      → IsWord i
      → Keeps P T H (Operand i) (immediate_argument k neg tok i)
  unfolding immediate_argument
  immediate_argument-Keeps TokenKind.char neg tok i w s h =
      Post-bind P T H P IsU32 (Operand i) _ (char_of tok s) (char_of-Keeps tok s h)
        (λ c s' small h'. (operand i 1 2 c w (omega arith) (omega arith) (omega arith), h'))
  immediate_argument-Keeps TokenKind.float neg tok i w s h =
      Post-bind P T H P IsU64 (Operand i) _ (float_of tok s) (float_of-Keeps tok s h)
        (λ f s' small h'.
          let o = operand i 1 3 f w (omega arith) (omega arith) small in
          Post-value P T H _ (Operand i) _ (λ j o'. Operand-trans o o')
            (integer_argument-Keeps neg tok _ o.word s' h'))
  immediate_argument-Keeps TokenKind.integer neg tok i w s h =
      integer_argument-Keeps neg tok i w s h
  immediate_argument-Keeps k neg tok i w s h = law.asserts

  add_integer-Keeps : (i : Instruction) → IsWord i → Keeps P T H (Operand i) (add_integer i)
  unfolding add_integer
  add_integer-Keeps i w s h =
      Post-bind P T H P Any (Operand i) _ (matches (TokenKind.minus ∷ []) s)
        (matches-Keeps P T H law _ s h)
        (λ neg s' u h'.
          Post-bind P T H P Any (Operand i) _ _
            (Post-if P T H Any _ _ s' neg (λ e. (_, h')) (λ e. matches-Keeps P T H law _ s' h'))
            (λ x a u' ha.
              Post-bind P T H P Any (Operand i) _ (consume TokenKind.integer a)
                (consume-Keeps P T H law _ a ha)
                (λ tok b u'' hb.
                  Post-bind P T H P IsU64 (Operand i) _ (int_of tok b) (int_of-Keeps tok b hb)
                    (λ v c small hc.
                      (operand i i.rmd _ _ w w.rmd (integer_size-IsMode v) (omega arith), hc)))))

  pub register_argument-Keeps :
      (size_op : Bool) (tok : Token) (i : Instruction)
      → IsWord i
      → Keeps P T H (Operand i) (register_argument size_op tok i)
  unfolding register_argument
  register_argument-Keeps true tok i w s h =
      Post-bind P T H P Any (Operand i) _ (asserted (extend tok.range s.parser.curr.range) s)
        (asserted-Keeps P T H law Any _ (λ n e. _) s h)
        (λ r s' u h'. fail-Keeps P T H law (Operand i) s' h')
  register_argument-Keeps false tok i w s h = (operand i 0 _ _ w (omega arith) w.ims w.ii, h)

  module _ (n : ℕ) (patch : PatchLaw P n) where
    -- The value of a name.
    name_value-Keeps :
        (size_op : Bool) (r : Range) (b : Bool)
        → Keeps P T H IsU32 (if size_op then get_variable_size r else add_symbol_reference n r b)
    name_value-Keeps true r b = get_variable_size-Keeps P T H law r
    name_value-Keeps false r b = add_symbol_reference-Keeps P T H law n patch r b

    symbol_mode : (v : ℕ) → (if v == 0 then 2 else integer_size v) < 4
    symbol_mode v = elim (Bool-cases (v == 0)) [
      | inl e ↦ rw e (omega arith)
      | inr e ↦ rw e (integer_size-IsMode v)
    ]

    pub symbol_argument-Keeps :
        (size_op : Bool) (tok : Token) (i : Instruction)
        → IsWord i
        → Keeps P T H (Operand i) (symbol_argument size_op n tok i)
    unfolding symbol_argument
    symbol_argument-Keeps size_op tok i w s h =
        Post-bind P T H P IsU32 (Operand i) _ _ (name_value-Keeps size_op tok.range true s h)
          (λ v s' small h'.
            let o = operand i 1 _ v w (omega arith) (symbol_mode v) (omega arith) in
            Post-if P T H (Operand i) (add_integer _) (pure _) s' _
              (λ e.
                Post-value P T H _ (Operand i) _ (λ j o'. Operand-trans o o')
                  (add_integer-Keeps _ o.word s' h'))
              (λ e. (o, h')))

    named_offset-Keeps :
        (size_op : Bool) (sign : TokenKind) (tok : Token) (i : Instruction)
        → IsWord i
        → Keeps P T H (Operand i) (named_offset size_op sign n tok i)
    unfolding named_offset
    named_offset-Keeps size_op sign tok i w s h =
        Post-if P T H (Operand i) fail _ s (is_sign sign)
          (λ e. fail-Keeps P T H law (Operand i) s h)
          (λ e.
            Post-bind P T H P IsU32 (Operand i) _ _ (name_value-Keeps size_op tok.range false s h)
              (λ v s' small h'. (operand i i.rmd 3 _ w w.rmd (omega arith) (omega arith), h')))

    offset_value-Keeps :
        (k : TokenKind) (size_op : Bool) (sign : TokenKind) (neg : Bool) (tok : Token)
        (i : Instruction)
        → IsWord i
        → Keeps P T H (Operand i) (offset_value k size_op sign neg n tok i)
    unfolding offset_value
    offset_value-Keeps TokenKind.integer size_op sign neg tok i w s h =
        Post-bind P T H P IsU64 (Operand i) _ (int_of tok s) (int_of-Keeps tok s h)
          (λ v s' small h'. (operand i i.rmd _ _ w w.rmd (integer_size-IsMode v) (omega arith), h'))
    offset_value-Keeps TokenKind.hash size_op sign neg tok i w s h =
        Post-if P T H (Operand i) (named_offset true sign n tok i) fail s _
          (λ e. named_offset-Keeps true sign tok i w s h)
          (λ e. fail-Keeps P T H law (Operand i) s h)
    offset_value-Keeps TokenKind.identifier size_op sign neg tok i w s h =
        named_offset-Keeps size_op sign tok i w s h
    offset_value-Keeps k size_op sign neg tok i w s h =
        Post-bind P T H P Any (Operand i) _ (error s) (error-Keeps P T H law s h)
          (λ u s' u' h'. (operand i i.rmd i.ims i.ii w w.rmd w.ims w.ii, h'))

    pub parse_offset-Keeps :
        (size_op : Bool) (i : Instruction)
        → IsWord i
        → Keeps P T H (Addressed i) (parse_offset size_op n i)
    unfolding parse_offset
    parse_offset-Keeps size_op i w s h =
        Post-bind P T H P Any (Addressed i) _ (parse_sign s) (parse_sign-Keeps s h) (λ r a u ha.
          Post-bind P T H P Any (Addressed i) _ (advance a) (law.advanced a ha) (λ tok b u' hb.
            Post-bind P T H P (Operand i) (Addressed i) _
              (offset_value tok.kind size_op r.0 r.1 n tok i b)
              (offset_value-Keeps tok.kind size_op r.0 r.1 tok i w b hb)
              (λ j c o hc. (addressed o, hc))))
