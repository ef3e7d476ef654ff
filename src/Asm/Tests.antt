-- ===== src/Asm/Tests.antt =====
-- The assembler on small texts, and its theorems applied.
use cyntatic.Prelude.{
  ℕ, zero, suc, ◌<◌, ◌≡◌, ◌≢◌, refl, Bool, true, false, some, List, [], ◌∷◌, All, length, arith,
  ◌==◌, ne_of_==,
}
use cyntatic.Source.{Range, range_update, range_size}
use cyntatic.Utf8.{front}
use cyntatic.Token.{TokenKind, TokenValue, Token, ordinal}
use cyntatic.Lexer.State.{
  Lexer, ok as read, Conversion, Stop, update_pos, pos_from, advance as move_on, skip_fuel,
  update_token, made, made_before, char_at,
}
use cyntatic.Lexer.Keywords.{find_keyword}
use cyntatic.Lexer.Literal.{quote}
use cyntatic.Lexer.Words.{name, name_token, keyword_value}
use cyntatic.Lexer.Tokenize.{
  operator, long_operator, short_operator, op_token, other_token, tokenize,
}
use cyntatic.Lexer.Next.{
  init, reset, next_token, next_fuel, next_once, next_from, space_fuel, space_token, zero_token,
}
use cyntatic.Parser.{parser_init, parser_advance, parser_peek, match_kinds, check_kinds, has_kind}
use cyntatic.Vm.Run.{Run, ok}
use cyntatic.Vm.Instr.{zero_instruction, b1, b2, b3}
use cyntatic.Vm.Names.{get_register}
use cyntatic.Vm.Opcodes.{find_opcode, get_opcode, strncasecmp}
use cyntatic.Vm.Opcodes.Case.{get_opcode-upper}
use cyntatic.Vm.Builder.{
  SymbolTag, same_name, add_patch, references, linked, link_loop, is_patched, add_to_references,
  modify, counted_size,
}
use cyntatic.Vm.Builder as Builder
use cyntatic.Vm.Code.{encode, imm_bytes, code_append}
use cyntatic.Vm.Value.{mode_size, le_bytes, integer_size}
use cyntatic.Asm.State.{
  Assembler, Outcome, done, thrown, halted, log_errors, count_errors, advance, peek, matches,
  consume, view, fail, error,
}
use cyntatic.Asm.Symbols.{look_up, add_symbol, later, add_symbol_reference}
use cyntatic.Asm.Argument.{
  find_mode, parse_modes, parse_sign, integer_argument, immediate_argument, symbol_argument,
  register_argument, name_argument, argument_value, parse_instruction_arg, add_integer,
}
use cyntatic.Asm.Statement.{
  parse_label, first_argument, second_argument, instruction_of, parse_instruction,
}
use cyntatic.Asm.Assemble.{
  synchronize, statement_of, statement, assemble_loop, link, finish, assemble, define, define_all,
  set_up, assembler_init, assemble_text, plain_symbols,
}
use cyntatic.Asm.Keeps.Operands.{Encodable}
use cyntatic.Asm.Bounds.{Before}
use cyntatic.Asm.Code.{assemble_text-Encodable, assemble_text-patched, assemble_text-Succeeds}
use cyntatic.Asm.Decoded.{IsRead, assemble_text-IsRead}
use cyntatic.Asm.Ends.{assemble_text-ends}
use cyntatic.Asm.Labels.{at_label, behind_label, parse_label_lem}
use cyntatic.Asm.Throws.{AtBoundary, statement-throws}
use cyntatic.Asm.Faults.{parse_modes-refuses, add_integer-plus}

abbrev no_float : List ℕ → Conversion
no_float s = record { bits = 0; complete = true; out_of_range = false }

abbrev blank_data : ℕ → ℕ
blank_data i = 0

-- The lexer on a text.
abbrev on : List ℕ → Lexer
on text = init 1 text no_float false

-- A jump over an instruction to a label.
abbrev jump_text : List ℕ
jump_text =
    b'j' ∷ b'm' ∷ b'p' ∷ 32 ∷ b'l' ∷ 10 ∷ b'l' ∷ b':' ∷ 10 ∷ b'h' ∷ b'a' ∷ b'l' ∷ b't' ∷ 10 ∷ []

-- What the assembler makes of it.
abbrev jumped : Outcome (Run (List ℕ))
jumped = assemble_text (on jump_text) blank_data

abbrev run_of : Outcome (Run (List ℕ)) → Run (List ℕ)
run_of (done r s) = r
run_of o = ok []

abbrev state_of : Outcome (Run (List ℕ)) → Assembler → Assembler
state_of (done r s) d = s
state_of (thrown s) d = s
state_of (halted e) d = d

-- An assembler before a text, for the cases that have none.
abbrev blank_state : Assembler
blank_state = record {
  parser = record {
    lexer = on [];
    curr = record zero_token { kind = TokenKind.plus };
    peeked = record zero_token { kind = TokenKind.count };
    prev = zero_token;
  };
  main = 0;
  constants = [];
  instructions = [];
  symbols = [];
  patch_work = [];
  logged = 0;
  spare = blank_data;
}

abbrev jump_state : Assembler
jump_state = state_of jumped blank_state

-- The header, the jump with its offset of six bytes, and the halt.
abbrev jump_code : List ℕ
jump_code =
    23 ∷ 0 ∷ 0 ∷ 0 ∷ 0 ∷ 0 ∷ 0 ∷ 0 ∷ 16 ∷ 0 ∷ 0 ∷ 0 ∷ 16 ∷ 0 ∷ 0 ∷ 0 ∷ 14 ∷ 226 ∷ 6 ∷ 0 ∷ 0 ∷ 0 ∷ 1
    ∷ []

jumped_lem : (jumped ≡ done (ok jump_code) jump_state) × (log_errors jump_state ≡ 0)
unfolding assemble_text assembler_init set_up parser_init next_token next_fuel next_once
    update_token range_update init reset next_from space_fuel space_token tokenize operator
    long_operator short_operator op_token other_token name name_token keyword_value find_keyword
    skip_fuel move_on pos_from update_pos made made_before front range_size define_all define
    look_up same_name assemble assemble_loop statement statement_of synchronize peek parser_peek
    parser_advance advance matches match_kinds check_kinds has_kind ordinal consume view fail error
    parse_label parse_instruction instruction_of get_opcode find_opcode strncasecmp parse_modes
    first_argument second_argument parse_instruction_arg parse_sign argument_value name_argument
    symbol_argument register_argument immediate_argument integer_argument get_register add_symbol
    add_symbol_reference later add_patch integer_size finish link Builder.link references linked
    link_loop is_patched add_to_references modify counted_size plain_symbols mode_size code_append
    encode imm_bytes le_bytes b1 b2 b3 count_errors
jumped_lem = (refl, refl)

assemble_text-Encodable_example : All Encodable jump_state.instructions
assemble_text-Encodable_example =
    assemble_text-Encodable (on jump_text) blank_data (ok jump_code) jump_state jumped_lem.0

assemble_text-IsRead_example : All IsRead jump_state.instructions
assemble_text-IsRead_example =
    assemble_text-IsRead (on jump_text) blank_data (ok jump_code) jump_state jumped_lem.0

assemble_text-patched_example : Before (length jump_state.instructions) jump_state.patch_work
assemble_text-patched_example =
    assemble_text-patched (on jump_text) blank_data (ok jump_code) jump_state jumped_lem.0
      jumped_lem.1

assemble_text-Succeeds_example :
    (code : List ℕ) × (ok jump_code ≡ ok code) × (0 < log_errors jump_state → code ≡ [])
assemble_text-Succeeds_example =
    assemble_text-Succeeds (on jump_text) blank_data (ok jump_code) jump_state jumped_lem.0

fails_at :
    (test : ℕ → Bool) (text : List ℕ)
    → All (λ c. test c ≡ false) text
    → test 255 ≡ false
    → (i : ℕ) → test (char_at text i) ≡ false
fails_at test [] all e i = e
fails_at test (c ∷ text) (h, all) e zero = h
fails_at test (c ∷ text) (h, all) e (suc i) = fails_at test text all e i

no_quote : (i : ℕ) → char_at jump_text i ≢ quote
no_quote i = ne_of_== _ quote (
    fails_at (λ c. c == quote) jump_text
      (
        refl,
        (
          refl,
          (
            refl,
            (
              refl,
              (refl, (refl, (refl, (refl, (refl, (refl, (refl, (refl, (refl, (refl, _)))))))))),
            ),
          ),
        ),
      )
      refl i)

assemble_text-ends_example :
    (assemble_text (init 1 jump_text no_float false) blank_data ≢ halted Stop.endless)
    × ((a : Assembler) → assemble_text (init 1 jump_text no_float false) blank_data ≢ thrown a)
assemble_text-ends_example = assemble_text-ends 1 jump_text no_float false blank_data no_quote

-- A plus sign starts no statement.
abbrev plus_state : Assembler
plus_state = record blank_state { logged = 1 }

plus_throws : statement 3 blank_state ≡ thrown plus_state
unfolding statement statement_of fail
plus_throws = refl

statement-throws_example :
    (plus_state.instructions ≡ [])
    × (0 < 1)
    × ((fuel : ℕ) (b : Assembler)
        → synchronize fuel plus_state ≡ done _ b
        → AtBoundary plus_state b)
statement-throws_example = (statement-throws 3 blank_state).0 plus_state plus_throws

get_opcode-upper_example : get_opcode (b'R' ∷ b'e' ∷ b'T' ∷ []) ≡ some (2, 1)
get_opcode-upper_example =
    get_opcode-upper 2 (b'r' ∷ b'e' ∷ b't' ∷ []) (b'R' ∷ b'e' ∷ b'T' ∷ []) 1 refl refl

add_integer-plus_example : add_integer zero_instruction blank_state ≡ thrown plus_state
add_integer-plus_example = add_integer-plus zero_instruction blank_state refl

-- At the mode `b`, where only `w` is to be supported.
abbrev mode_state : Assembler
mode_state = record blank_state {
  parser = record {
    lexer = on (b'b' ∷ []);
    curr = record zero_token {
      kind = TokenKind.identifier;
      range = record { source = 1; start = 0; end = 1; coord = record { line = 0; column = 0 } };
    };
    peeked = zero_token;
    prev = zero_token;
  };
}

abbrev mode_left : Assembler
mode_left = record mode_state {
  parser = record mode_state.parser {
    curr = zero_token;
    peeked = record zero_token { kind = TokenKind.count };
    prev = mode_state.parser.curr;
  };
}

mode_read : parse_modes (2 ∷ []) mode_state ≡ done 0 mode_left
unfolding parse_modes consume check_kinds has_kind ordinal advance parser_advance view range_size
    front find_mode init reset
mode_read = refl

parse_modes-refuses_example : find_mode (2 ∷ []) 0 ≡ false
parse_modes-refuses_example =
    parse_modes-refuses (2 ∷ []) mode_state mode_left 0 (omega arith) mode_read

-- The text `l:`, read to its end.
abbrev label_lexer : Lexer
label_lexer = record (on (b'l' ∷ b':' ∷ [])) { idx = 2; pos = record { line = 0; column = 2 } }

abbrev name_range : Range
name_range = record { source = 1; start = 0; end = 1; coord = record { line = 0; column = 0 } }

abbrev colon_range : Range
colon_range = record { source = 1; start = 1; end = 2; coord = record { line = 0; column = 1 } }

abbrev end_token : Token
end_token = record zero_token {
  kind = TokenKind.count;
  range = record { source = 1; start = 2; end = 2; coord = record { line = 0; column = 2 } };
}

label_end : next_token label_lexer ≡ read (TokenKind.eof, end_token) label_lexer
unfolding next_token next_fuel next_once next_from space_fuel update_token range_update init reset
    tokenize operator long_operator short_operator other_token
label_end = refl

one_long : range_size name_range ≡ some 1
unfolding range_size
one_long = refl

parse_label_lem_example :
    parse_label (record blank_state {
      parser = at_label label_lexer name_range colon_range TokenValue.nothing zero_token;
    })
    ≡ done _ (record blank_state {
      parser = behind_label label_lexer end_token colon_range TokenValue.nothing;
      symbols =
          (front 1 (b'l' ∷ b':' ∷ []), record { id = 0; size = 0; tag = SymbolTag.label_tag }) ∷ [];
      main = 0;
    })
unfolding init reset front look_up
parse_label_lem_example =
    parse_label_lem blank_state label_lexer label_lexer name_range colon_range TokenValue.nothing
      zero_token end_token TokenKind.eof 1 label_end one_long refl
