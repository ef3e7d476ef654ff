-- ===== src/Asm/Keeps/Instruction.antt =====
-- What reading an instruction keeps, and the instruction that is read (src/compiler/asm/asm.c).
use cyntatic.Prelude.{
  ℕ, ◌<◌, ◌≤◌, ◌≡◌, refl, sym, ◌∙◌, Bool, true, false, ◌&&◌, List, [], ◌∷◌, some, length,
  if◌then◌else◌, arith, ◌==◌, Bool-cases, inl, inr,
}
use mathlib.Core.Path.{subst}
use cyntatic.Token.{TokenKind, Token}
use cyntatic.Lexer.State.{Stop}
use cyntatic.Parser.{check_kinds}
use cyntatic.Vm.State.{reg_count}
use cyntatic.Vm.Instr.{Instruction, IsWord}
use cyntatic.Vm.Names.{get_register}
use cyntatic.Asm.State.{Assembler, pure, fail, advance, matches, consume, view, ◌>>◌}
use cyntatic.Asm.Argument.{
  mode_of, parse_modes, parse_sign, is_sign, symbol_argument, register_argument, parse_offset,
  name_argument, is_identifier, argument_kinds, argument_value, immediate_argument,
  parse_instruction_arg,
}
use cyntatic.Asm.Keeps.{
  Post, Any, Law, Keeps, Post-bind, Post-if, Post-option, Post-value, fail-Keeps, view-Keeps,
  matches-Keeps, consume-Keeps,
}
use cyntatic.Asm.Keeps.Symbols.{PatchLaw}
use cyntatic.Asm.Keeps.Argument.{
  Operand, Addressed, parse_sign-Keeps, immediate_argument-Keeps, symbol_argument-Keeps,
  register_argument-Keeps, parse_offset-Keeps,
}

-- An argument that was read: a register, and the instruction with the operand stored in it; only the
-- second argument has an effective address.
pub record Argument (is_rb : Bool) (i : Instruction) (r : ℕ × Instruction) : Type 0 where
  pub reg : r.0 < 16
  pub word : IsWord r.1
  pub same_size : r.1.osz ≡ i.osz
  pub same_offset : is_rb ≡ false → r.1.iea ≡ i.iea

-- What `Assembler_parse_instruction_arg` returns.
abbrev pub Read : Bool → Instruction → Bool × ℕ × Instruction → Type 0
Read is_rb i r = Argument is_rb i (r.1, r.2)

abbrev AnyBool : Bool → Type 0
AnyBool b = Unit

abbrev IsMode : ℕ → Type 0
IsMode m = m < 4

get_register-IsRegister : (s : List ℕ) → get_register s ≤ reg_count
unfolding get_register
get_register-IsRegister [] = omega arith
get_register-IsRegister (a ∷ []) = omega arith
get_register-IsRegister (a ∷ b ∷ []) = ground arith
get_register-IsRegister (a ∷ b ∷ c ∷ []) = ground arith
get_register-IsRegister (a ∷ b ∷ c ∷ d ∷ s) = omega arith

register_field : (s : List ℕ) → (if get_register s == reg_count then 0 else get_register s) < 16
register_field s =
    let h = get_register-IsRegister s in
    elim (Bool-cases (get_register s == reg_count)) [
      | inl e ↦ rw e (omega arith)
      | inr e ↦ rw e (omega arith)
    ]

mode_of-IsMode : (ext : List ℕ) (m : ℕ) → mode_of ext ≡ some m → m < 4
mode_of-IsMode ext m e = ground arith

both_right : (a b : Bool) → (a && b) ≡ true → b ≡ true
both_right a b h = ground arith

-- An operand without an effective address.
plain-Argument : (is_rb : Bool) (i j : Instruction) → Operand i j → Argument is_rb i (0, j)
plain-Argument is_rb i j o = record {
  reg = omega arith;
  word = o.word;
  same_size = o.same_size;
  same_offset = λ e. o.same_offset;
}

-- One with it.
offset-Argument :
    (is_rb : Bool) (i j j' : Instruction)
    → Operand i j
    → Addressed j j'
    → is_rb ≡ true
    → Argument is_rb i (0, j')
offset-Argument is_rb i j j' o d e = record {
  reg = omega arith;
  word = d.word;
  same_size = d.same_size ∙ o.same_size;
  same_offset = λ e'. absurd (cc);
}

module _ (P T : Assembler → Type 0) (H : Stop → Type 0) (law : Law P T H) where
  pub parse_modes-Keeps : (modes : List ℕ) → Keeps P T H IsMode (parse_modes modes)
  unfolding parse_modes
  parse_modes-Keeps modes s h =
      Post-bind P T H P Any IsMode _ (consume TokenKind.identifier s)
        (consume-Keeps P T H law _ s h)
        (λ tok a u ha.
          Post-bind P T H P Any IsMode _ (view tok.range a) (view-Keeps P T H law tok.range a ha)
            (λ ext b u' hb.
              Post-option P T H IsMode fail _ b (mode_of ext)
                (λ e. fail-Keeps P T H law IsMode b hb)
                (λ mode e.
                  Post-if P T H IsMode fail (pure mode) b _ (λ e'. fail-Keeps P T H law IsMode b hb)
                    (λ e'. (mode_of-IsMode ext mode e, hb)))))

  module _ (n : ℕ) (patch : PatchLaw P n) where
    Operand-read :
        (r : Bool) (size_op : Bool) (tok : Token) (i : Instruction)
        → IsWord i
        → Keeps P T H
            (Operand i)
            (if r then symbol_argument size_op n tok i else register_argument size_op tok i)
    Operand-read true size_op tok i w = symbol_argument-Keeps P T H law n patch size_op tok i w
    Operand-read false size_op tok i w = register_argument-Keeps P T H law size_op tok i w

    offset_read :
        (is_rb offset size_op : Bool) (i j : Instruction)
        → Operand i j
        → (offset ≡ true → is_rb ≡ true)
        → Keeps P T H
            (λ j'. Argument is_rb i (0, j'))
            (if offset then parse_offset size_op n j else pure j)
    offset_read is_rb true size_op i j o second s h =
        Post-value P T H (Addressed j) _ _ (λ j' d. offset-Argument is_rb i j j' o d (second refl))
          (parse_offset-Keeps P T H law n patch size_op j o.word s h)
    offset_read is_rb false size_op i j o second s h = (plain-Argument is_rb i j o, h)

    name_argument-Keeps :
        (is_mem is_rb : Bool) (sign : TokenKind) (size_op : Bool) (tok : Token) (i : Instruction)
        → IsWord i
        → Keeps P T H (Argument is_rb i) (name_argument is_mem is_rb sign size_op n tok i)
    unfolding name_argument
    name_argument-Keeps is_mem is_rb sign size_op tok i w s h =
        Post-if P T H (Argument is_rb i) fail _ s (is_sign sign) (λ e. fail-Keeps P T H law _ s h)
          (λ e.
            Post-bind P T H P Any (Argument is_rb i) _ (view tok.range s)
              (view-Keeps P T H law tok.range s h)
              (λ name a u ha.
                Post-bind P T H P (Operand i) (Argument is_rb i) _ _
                  (Operand-read (get_register name == reg_count) size_op tok i w a ha)
                  (λ j b o hb.
                    Post-bind P T H P (λ c. c ≡ true → is_rb ≡ true) (Argument is_rb i) _ _
                      (Post-if P T H _ (matches (TokenKind.comma ∷ [])) (pure false) b
                        (is_mem && is_rb)
                        (λ both.
                          Post-value P T H Any _ _ (λ c u'. λ c'. both_right is_mem is_rb both)
                            (matches-Keeps P T H law _ b hb))
                        (λ e'. ((λ c. absurd (cc)), hb)))
                      (λ offset c second hc.
                        Post-bind P T H P (λ j'. Argument is_rb i (0, j')) (Argument is_rb i) _ _
                          (offset_read is_rb offset size_op i j o second c hc)
                          (λ j' d q hd. (
                            record {
                              reg = register_field name;
                              word = q.word;
                              same_size = q.same_size;
                              same_offset = q.same_offset;
                            },
                            hd,
                          ))))))

    argument_value-Keeps :
        (is_mem is_rb : Bool) (sign : TokenKind) (neg : Bool) (i : Instruction)
        → IsWord i
        → Keeps P T H (Argument is_rb i) (argument_value is_mem is_rb sign neg i)
    unfolding argument_value
    argument_value-Keeps is_mem is_rb sign neg i w s h =
        Post-bind P T H P Any (Argument is_rb i) _ (matches (TokenKind.hash ∷ []) s)
          (matches-Keeps P T H law _ s h)
          (λ size_op a u ha.
            Post-bind P T H P Any (Argument is_rb i) _ (advance a) (law.advanced a ha)
              (λ tok b u' hb.
                Post-if P T H (Argument is_rb i)
                  (name_argument is_mem is_rb sign size_op (length a.instructions) tok i) _ b
                  (is_identifier tok.kind)
                  (λ e.
                    subst
                      (λ m.
                        Post P T H (Argument is_rb i)
                          (name_argument is_mem is_rb sign size_op m tok i b))
                      (sym (patch.fixed a ha))
                      (name_argument-Keeps is_mem is_rb sign size_op tok i w b hb))
                  (λ e.
                    Post-bind P T H P (Operand i) (Argument is_rb i) _
                      (immediate_argument tok.kind neg tok i b)
                      (immediate_argument-Keeps P T H law tok.kind neg tok i w b hb)
                      (λ j c o hc. (plain-Argument is_rb i j o, hc)))))

    required-Keeps : (c : Bool) → Keeps P T H AnyBool (if c then pure true else fail)
    required-Keeps true s h = (_, h)
    required-Keeps false s h = fail-Keeps P T H law AnyBool s h

    close-Keeps :
        (is_mem : Bool)
        → Keeps P T H AnyBool
            (if is_mem then (consume TokenKind.right_bracket >> pure true) else pure true)
    close-Keeps true s h =
        Post-bind P T H P Any AnyBool _ (consume TokenKind.right_bracket s)
          (consume-Keeps P T H law _ s h) (λ y a u ha. (_, ha))
    close-Keeps false s h = (_, h)

    pub parse_instruction_arg-Keeps :
        (i : Instruction) (is_rb : Bool)
        → IsWord i
        → Keeps P T H (Read is_rb i) (parse_instruction_arg i is_rb)
    unfolding parse_instruction_arg
    parse_instruction_arg-Keeps i is_rb w s h =
        Post-bind P T H P Any (Read is_rb i) _ (matches (TokenKind.left_bracket ∷ []) s)
          (matches-Keeps P T H law _ s h)
          (λ is_mem a u ha.
            Post-bind P T H P Any (Read is_rb i) _ (parse_sign a) (parse_sign-Keeps P T H law a ha)
              (λ r b u' hb.
                Post-bind P T H P AnyBool (Read is_rb i) _
                  ((if check_kinds b.parser argument_kinds then pure true else fail) b)
                  (required-Keeps (check_kinds b.parser argument_kinds) b hb)
                  (λ x c u'' hc.
                    Post-bind P T H P (Argument is_rb i) (Read is_rb i) _
                      (argument_value is_mem is_rb r.0 r.1 i c)
                      (argument_value-Keeps is_mem is_rb r.0 r.1 i w c hc)
                      (λ v d q hd.
                        Post-bind P T H P AnyBool (Read is_rb i) (λ y. pure (is_mem, v.0, v.1))
                          ((if is_mem
                              then (consume TokenKind.right_bracket >> pure true)
                              else pure true)
                            d)
                          (close-Keeps is_mem d hd) (λ y g u3 hg. (q, hg))))))
