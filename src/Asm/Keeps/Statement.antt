-- ===== src/Asm/Keeps/Statement.antt =====
-- What a statement keeps (src/compiler/asm/asm.c).
use cyntatic.Prelude.{
  ℕ, suc, ◌+◌, Bool, true, false, List, [], ◌∷◌, ◌++◌, Option, some, none, length, if◌then◌else◌,
}
use cyntatic.Token.{TokenKind}
use cyntatic.Lexer.State.{Stop}
use cyntatic.Parser.{check_kinds}
use cyntatic.Vm.Instr.{Instruction}
use cyntatic.Vm.Opcodes.{get_opcode}
use cyntatic.Vm.Builder.{SymbolTag, header_size}
use cyntatic.Asm.State.{
  Assembler, AsmSymbol, Act, Outcome, done, thrown, halted, pure, fail, advance, peek, consume,
  view, ◌>>◌,
}
use cyntatic.Asm.Symbols.{look_up, add_symbol, set_size}
use cyntatic.Asm.Statement.{
  starts_main, set_main, parse_label, parse_instruction, byte_list, variable_data, parse_var_decl,
}
use cyntatic.Asm.Assemble.{is_colon, statement_of, statement}
use cyntatic.Asm.Keeps.{
  Post, Any, Law, Keeps, Post-bind, Post-if, Post-option, fail-Keeps, view-Keeps, view-Post,
  consume-Keeps,
}
use cyntatic.Asm.Keeps.Symbols.{PatchLaw, add_symbol-Keeps, set_size-Keeps}
use cyntatic.Asm.Keeps.Operands.{Encodable, instruction_of-Post, get_opcode-IsOpcode}
use cyntatic.Asm.Keeps.Data.{variable_data-Keeps}

-- A statement starts where `S` holds. `P` holds within a label or a variable, `Q` within an instruction
-- of which `n` stand before it, and `E` behind the statement.
pub record Start (S P Q E T : Assembler → Type 0) (H : Stop → Type 0) (n : ℕ) : Type 0 where
  pub law : Law P T H
  pub instruction_law : Law Q T H
  pub patch : PatchLaw Q n
  pub enter : (s : Assembler) → S s → Post P T H Any (advance s)
  pub enter_instruction : (s : Assembler) → S s → Post Q T H Any (advance s)
  pub look_ahead : (s : Assembler) → S s → Post S T H Any (peek s)
  pub refuse : (s : Assembler) → S s → T (record s { logged = suc s.logged })
  pub leave : (s : Assembler) → P s → E s
  pub push :
      (s : Assembler) (i : Instruction)
      → Q s
      → Encodable i
      → E (record s { instructions = s.instructions ++ i ∷ [] })

abbrev skip_token : Act
skip_token = advance >> pure _

module _ (S P Q E T : Assembler → Type 0) (H : Stop → Type 0) (n : ℕ)
    (start : Start S P Q E T H n) where
  -- The end of a label or a variable.
  leaves : (r : Outcome {0} Unit) → Post P T H Any r → Post E T H Any r
  leaves (done a s) h = (_, start.leave s h.1)
  leaves (thrown s) h = h
  leaves (halted e) h = h

  refused : (s : Assembler) → S s → Post E T H Any (fail {A = Unit {0}} s)
  unfolding fail
  refused s h = start.refuse s h

  entered : (kind : TokenKind) (s : Assembler) → S s → Post P T H Any (consume kind s)
  unfolding consume fail
  entered kind s h =
      Post-if P T H Any advance fail s (check_kinds s.parser (kind ∷ [])) (λ e. start.enter s h)
        (λ e. start.refuse s h)

  new_name :
      (found : Option AsmSymbol)
      → Keeps P T H Any (elim found as (λ o. Act) [ some sym ↦ fail | none ↦ pure _ ])
  new_name (some sym) s h = fail-Keeps P T H start.law Any s h
  new_name none s h = (_, h)

  main_set :
      (name : List ℕ) (id : ℕ) (s : Assembler)
      → P s
      → Post E T H Any ((if starts_main name then set_main id else pure _) s)
  main_set name id s h =
      Post-if E T H Any (set_main id) (pure _) s (starts_main name)
        (λ e. (_, start.leave _ (start.law.starts s id h))) (λ e. (_, start.leave s h))

  parse_label-Post : (s : Assembler) → S s → Post E T H Any (parse_label s)
  unfolding parse_label
  parse_label-Post s h =
      Post-bind E T H P Any Any _ (consume TokenKind.identifier s) (entered _ s h) (λ tok a u ha.
        Post-bind E T H P Any Any _ (consume TokenKind.colon a)
          (consume-Keeps P T H start.law _ a ha)
          (λ colon b u' hb.
            Post-bind E T H P Any Any _ (view tok.range b)
              (view-Keeps P T H start.law tok.range b hb)
              (λ name c u'' hc.
                Post-bind E T H P Any Any _
                  ((elim (look_up c.symbols name) as (λ o. Act) [ some sym ↦ fail | none ↦ pure _ ])
                    c)
                  (new_name (look_up c.symbols name) c hc)
                  (λ x d u3 hd.
                    Post-bind E T H P Any Any _
                      (add_symbol (length d.instructions) SymbolTag.label_tag tok.range d)
                      (add_symbol-Keeps P T H start.law _ _ tok.range d hd)
                      (λ y g u4 hg. main_set name (length d.instructions) g hg)))))

  parse_instruction-Post : (s : Assembler) → S s → Post E T H Any (parse_instruction s)
  unfolding parse_instruction
  parse_instruction-Post s h =
      Post-bind E T H S Any Any _ (view s.parser.curr.range s)
        (view-Post S T H start.law.asserts s.parser.curr.range s h)
        (λ name a u ha.
          Post-option E T H Any fail _ a (get_opcode name) (λ e. refused a ha)
            (λ r e.
              let o = get_opcode-IsOpcode name r e in
              instruction_of-Post Q T H start.instruction_law n start.patch S E r.0 r.1 o.0 o.1
                start.enter_instruction start.push a ha))

  label_or_instruction :
      (c : Bool) (s : Assembler)
      → S s
      → Post E T H Any ((if c then parse_label else parse_instruction) s)
  label_or_instruction true s h = parse_label-Post s h
  label_or_instruction false s h = parse_instruction-Post s h

  module _ (fuel : ℕ) (bytes : (s : Assembler) → P s → Post P T H Any (byte_list fuel 0 s)) where
    parse_var_decl-Post : (s : Assembler) → S s → Post E T H Any (parse_var_decl fuel s)
    unfolding parse_var_decl
    parse_var_decl-Post s h =
        Post-bind E T H P Any Any _ (advance s) (start.enter s h) (λ dollar a u ha.
          Post-bind E T H P Any Any _ (consume TokenKind.identifier a)
            (consume-Keeps P T H start.law _ a ha)
            (λ tok b u' hb.
              Post-bind E T H P Any Any _ (consume TokenKind.assign b)
                (consume-Keeps P T H start.law _ b hb)
                (λ sign c u'' hc.
                  Post-bind E T H P Any Any _
                    (add_symbol (length c.constants + header_size) SymbolTag.var_tag tok.range c)
                    (add_symbol-Keeps P T H start.law _ _ tok.range c hc)
                    (λ x d u3 hd.
                      Post-bind E T H P Any Any _ (view tok.range d)
                        (view-Keeps P T H start.law tok.range d hd)
                        (λ name g u4 hg.
                          Post-bind E T H P Any Any _ (variable_data fuel g)
                            (variable_data-Keeps P T H start.law fuel bytes g hg)
                            (λ size k u5 hk.
                              leaves (set_size name size k)
                                (set_size-Keeps P T H start.law name size k hk)))))))

    skipped : (s : Assembler) → S s → Post E T H Any (skip_token s)
    skipped s h =
        Post-bind E T H P Any Any _ (advance s) (start.enter s h)
          (λ tok a u ha. (_, start.leave a ha))

    statement_of-Post :
        (k : TokenKind) (s : Assembler) → S s → Post E T H Any (statement_of k fuel s)
    unfolding statement_of
    statement_of-Post TokenKind.identifier s h =
        Post-bind E T H S Any Any _ (peek s) (start.look_ahead s h)
          (λ next a u ha. label_or_instruction (is_colon next.kind) a ha)
    statement_of-Post TokenKind.dollar s h = parse_var_decl-Post s h
    statement_of-Post TokenKind.new_line s h = skipped s h
    statement_of-Post TokenKind.comment s h = skipped s h
    statement_of-Post k s h = refused s h

    -- A round of `Assembler_assemble`, up to the handler.
    pub statement-Post : (s : Assembler) → S s → Post E T H Any (statement fuel s)
    unfolding statement
    statement-Post s h = statement_of-Post s.parser.curr.kind s h
