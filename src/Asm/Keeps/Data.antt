-- ===== src/Asm/Keeps/Data.antt =====
-- What reading the value of a variable keeps (src/compiler/asm/asm.c).
use cyntatic.Prelude.{ℕ, ◌*◌, ◌%◌, Bool, true, false, List, [], ◌∷◌, if◌then◌else◌}
use cyntatic.Word.{u32_mod}
use cyntatic.Token.{TokenKind, Token, get_string}
use cyntatic.Lexer.State.{Stop}
use cyntatic.Vm.Value.{mode_size}
use cyntatic.Parser.{check_kinds}
use cyntatic.Asm.State.{
  Assembler, pure, error, advance, matches, consume, asserted, int_of, char_of, float_of,
}
use cyntatic.Asm.Symbols.{expand_data}
use cyntatic.Asm.Argument.{parse_modes}
use cyntatic.Asm.Statement.{
  byte_value, byte_list, quoted_mode, integer_data, char_data, float_data, reserve_data,
  signed_data, number_data, string_data, array_data, variable_data,
}
use cyntatic.Asm.Keeps.{
  Post, Any, Law, Keeps, Post-bind, Post-if, Post-value, fail-Keeps, error-Keeps, asserted-Keeps,
  matches-Keeps, consume-Keeps,
}
use cyntatic.Asm.Keeps.Symbols.{append_integral_data-Keeps, expand_data-Keeps}
use cyntatic.Asm.Keeps.Argument.{int_of-Keeps, char_of-Keeps, float_of-Keeps}
use cyntatic.Asm.Keeps.Instruction.{parse_modes-Keeps}

module _ (P T : Assembler → Type 0) (H : Stop → Type 0) (law : Law P T H) where
  int_read : (tok : Token) → Keeps P T H Any (int_of tok)
  int_read tok s h = Post-value P T H _ Any _ (λ v u. _) (int_of-Keeps P T H law tok s h)

  char_read : (tok : Token) → Keeps P T H Any (char_of tok)
  char_read tok s h = Post-value P T H _ Any _ (λ v u. _) (char_of-Keeps P T H law tok s h)

  float_read : (tok : Token) → Keeps P T H Any (float_of tok)
  float_read tok s h = Post-value P T H _ Any _ (λ v u. _) (float_of-Keeps P T H law tok s h)

  modes_read : (modes : List ℕ) → Keeps P T H Any (parse_modes modes)
  modes_read modes s h = Post-value P T H _ Any _ (λ v u. _) (parse_modes-Keeps P T H law modes s h)

  pub byte_value-Keeps : (k : TokenKind) (tok : Token) → Keeps P T H Any (byte_value k tok)
  unfolding byte_value
  byte_value-Keeps TokenKind.char tok s h = char_read tok s h
  byte_value-Keeps TokenKind.integer tok s h =
      Post-bind P T H P Any Any _ (int_of tok s) (int_read tok s h) (λ v s' u h'. (_, h'))
  byte_value-Keeps k tok s h = fail-Keeps P T H law Any s h

  pub range_error-Keeps : (c : Bool) → Keeps P T H Any (if c then error else pure _)
  range_error-Keeps true s h = error-Keeps P T H law s h
  range_error-Keeps false s h = (_, h)

  quoted_mode-Keeps : (mode : ℕ) (modes : List ℕ) → Keeps P T H Any (quoted_mode mode modes)
  unfolding quoted_mode
  quoted_mode-Keeps mode modes s h =
      Post-bind P T H P Any Any _ (matches (TokenKind.backquote ∷ []) s)
        (matches-Keeps P T H law _ s h)
        (λ quoted a u ha.
          Post-if P T H Any (parse_modes modes) (pure mode) a quoted (λ e. modes_read modes a ha)
            (λ e. (_, ha)))

  integer_data-Keeps : (neg : Bool) → Keeps P T H Any (integer_data neg)
  unfolding integer_data
  integer_data-Keeps neg s h =
      Post-bind P T H P Any Any _ (advance s) (law.advanced s h) (λ tok a u ha.
        Post-bind P T H P Any Any _ (int_of tok a) (int_read tok a ha) (λ v b u' hb.
          Post-bind P T H P Any Any _ (quoted_mode 3 [] b) (quoted_mode-Keeps 3 [] b hb)
            (λ mode c u'' hc. append_integral_data-Keeps P T H law _ mode c hc)))

  char_data-Keeps : Keeps P T H Any char_data
  unfolding char_data
  char_data-Keeps s h = Post-bind P T H P Any Any _ (advance s) (law.advanced s h) (λ tok a u ha.
      Post-bind P T H P Any Any _ (char_of tok a) (char_read tok a ha)
        (λ v b u' hb. append_integral_data-Keeps P T H law v 0 b hb))

  float_data-Keeps : (neg : Bool) → Keeps P T H Any (float_data neg)
  unfolding float_data
  float_data-Keeps neg s h =
      Post-bind P T H P Any Any _ (advance s) (law.advanced s h) (λ tok a u ha.
        Post-bind P T H P Any Any _ (float_of tok a) (float_read tok a ha) (λ v b u' hb.
          Post-bind P T H P Any Any _ (quoted_mode 3 (2 ∷ 3 ∷ []) b) (quoted_mode-Keeps 3 _ b hb)
            (λ mode c u'' hc. append_integral_data-Keeps P T H law _ mode c hc)))

  reserve_data-Keeps : Keeps P T H Any reserve_data
  unfolding reserve_data
  reserve_data-Keeps s h =
      Post-bind P T H P Any Any _ (advance s) (law.advanced s h) (λ open_tok a u ha.
        Post-bind P T H P Any Any _ (consume TokenKind.integer a) (consume-Keeps P T H law _ a ha)
          (λ tok b u' hb.
            Post-bind P T H P Any Any _ (quoted_mode 0 [] b) (quoted_mode-Keeps 0 [] b hb)
              (λ mode c u'' hc.
                Post-bind P T H P Any Any _ (asserted (mode_size mode) c)
                  (asserted-Keeps P T H law Any (mode_size mode) (λ n e. _) c hc)
                  (λ size d u3 hd.
                    Post-bind P T H P Any Any _ (consume TokenKind.right_bracket d)
                      (consume-Keeps P T H law _ d hd)
                      (λ close g u4 hg.
                        Post-bind P T H P Any Any _ (int_of tok g) (int_read tok g hg) (λ n k u5 hk.
                          Post-bind P T H P Any Any _ (expand_data (size * n % u32_mod) k)
                            (expand_data-Keeps P T H law _ k hk) (λ x l u6 hl. (_, hl))))))))

  signed_data-Keeps : (k : TokenKind) (neg : Bool) → Keeps P T H Any (signed_data k neg)
  unfolding signed_data
  signed_data-Keeps TokenKind.integer neg s h = integer_data-Keeps neg s h
  signed_data-Keeps TokenKind.char neg s h = char_data-Keeps s h
  signed_data-Keeps TokenKind.float neg s h = float_data-Keeps neg s h
  signed_data-Keeps TokenKind.left_bracket neg s h = reserve_data-Keeps s h
  signed_data-Keeps k neg s h = fail-Keeps P T H law Any s h

  any_sign :
      (neg : Bool) → Keeps P T H Any (if neg then pure true else matches (TokenKind.plus ∷ []))
  any_sign true s h = (_, h)
  any_sign false s h = matches-Keeps P T H law _ s h

  number_data-Keeps : Keeps P T H Any number_data
  unfolding number_data
  number_data-Keeps s h =
      Post-bind P T H P Any Any _ (matches (TokenKind.minus ∷ []) s) (matches-Keeps P T H law _ s h)
        (λ neg a u ha.
          Post-bind P T H P Any Any _ ((if neg then pure true else matches (TokenKind.plus ∷ [])) a)
            (any_sign neg a ha) (λ x b u' hb. signed_data-Keeps b.parser.curr.kind neg b hb))

  string_data-Keeps : Keeps P T H Any string_data
  unfolding string_data
  string_data-Keeps s h = Post-bind P T H P Any Any _ (advance s) (law.advanced s h) (λ tok a u ha.
      Post-bind P T H P Any Any _ (asserted (get_string tok) a)
        (asserted-Keeps P T H law Any (get_string tok) (λ n e. _) a ha)
        (λ v b u' hb. (_, law.stores b _ hb)))

  module _ (fuel : ℕ) (bytes : (s : Assembler) → P s → Post P T H Any (byte_list fuel 0 s)) where
    array_data-Keeps : Keeps P T H Any (array_data fuel)
    unfolding array_data
    array_data-Keeps s h =
        Post-bind P T H P Any Any _ (byte_list fuel 0 s) (bytes s h) (λ size a u ha.
          Post-bind P T H P Any Any _ (consume TokenKind.right_brace a)
            (consume-Keeps P T H law _ a ha) (λ x b u' hb. (_, hb)))

    text_or_number : (text : Bool) → Keeps P T H Any (if text then string_data else number_data)
    text_or_number true s h = string_data-Keeps s h
    text_or_number false s h = number_data-Keeps s h

    pub variable_data-Keeps : Keeps P T H Any (variable_data fuel)
    unfolding variable_data
    variable_data-Keeps s h =
        Post-bind P T H P Any Any _ (matches (TokenKind.left_brace ∷ []) s)
          (matches-Keeps P T H law _ s h)
          (λ brace a u ha.
            Post-if P T H Any (array_data fuel) _ a brace (λ e. array_data-Keeps a ha)
              (λ e. text_or_number (check_kinds a.parser (TokenKind.string ∷ [])) a ha))
