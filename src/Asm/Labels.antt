-- ===== src/Asm/Labels.antt =====
-- What a label stores (`Assembler_parse_label` of src/compiler/asm/asm.c).
use cyntatic.Prelude.{
  ℕ, ◌≡◌, refl, some, none, [], ◌∷◌, ◌++◌, length, drop, if◌then◌else◌, Bool-cases, inl, inr,
}
use cyntatic.Utf8.{front}
use cyntatic.Source.{Range, range_size}
use cyntatic.Token.{TokenKind, TokenValue, Token, ordinal}
use cyntatic.Lexer.State.{Lexer, ok}
use cyntatic.Lexer.Next.{next_token}
use cyntatic.Parser.{TokenParser, check_kinds, has_kind, parser_advance, with_token}
use cyntatic.Vm.Builder.{SymbolTag}
use cyntatic.Asm.State.{Assembler, done, advance, consume, view, bind, with_parser}
use cyntatic.Asm.Symbols.{look_up, add_symbol}
use cyntatic.Asm.Statement.{starts_main, parse_label}

-- The token parser at a name, with a colon read ahead.
abbrev pub at_label : Lexer → Range → Range → TokenValue → Token → TokenParser
at_label lx r colon_range v prev = record {
  lexer = lx;
  curr = record { kind = TokenKind.identifier; value = v; range = r };
  peeked = record { kind = TokenKind.colon; value = v; range = colon_range };
  prev = prev;
}

-- Behind the colon.
abbrev pub behind_label : Lexer → Token → Range → TokenValue → TokenParser
behind_label lx tok colon_range v = record {
  lexer = lx;
  curr = tok;
  peeked = record { kind = TokenKind.count; value = v; range = colon_range };
  prev = record { kind = TokenKind.colon; value = v; range = colon_range };
}

-- At a name with a colon behind it, where the lexer has a token behind the colon and no symbol has the
-- name: the label is stored behind the other symbols with the number of the instructions so far, which
-- is the start of the program where the name is a prefix of `main`; nothing else changes.
pub parse_label_lem :
    (s : Assembler) (lx lx' : Lexer) (r colon_range : Range) (v : TokenValue) (prev tok : Token)
    (kind : TokenKind) (n : ℕ)
    → next_token lx ≡ ok (kind, tok) lx'
    → range_size r ≡ some n
    → look_up s.symbols (front n (drop r.start lx'.text)) ≡ none
    → parse_label (record s { parser = at_label lx r colon_range v prev })
      ≡ done _ (record s {
        parser = behind_label lx' tok colon_range v;
        symbols =
            s.symbols
            ++ (
              front n (drop r.start lx'.text),
              record { id = length s.instructions; size = 0; tag = SymbolTag.label_tag },
            )
              ∷ [];
        main =
            if starts_main (front n (drop r.start lx'.text)) then length s.instructions else s.main;
      })
unfolding parse_label consume check_kinds has_kind ordinal advance parser_advance view add_symbol
parse_label_lem s lx lx' r colon_range v prev tok kind n next size new =
    elim (Bool-cases (starts_main (front n (drop r.start lx'.text)))) [
      | inl e ↦ rw (next, with_token, with_parser, bind, size, new, size, new, e) refl
      | inr e ↦ rw (next, with_token, with_parser, bind, size, new, size, new, e) refl
    ]
