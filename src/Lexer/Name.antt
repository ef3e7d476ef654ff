-- ===== src/Lexer/Name.antt =====
-- Names and words of a text (src/compiler/common/lexer.c): `Lexer_tokIdent`.
use cyntatic.Prelude.{
  ℕ, zero, suc, ◌+◌, ◌-◌, ◌≤◌, ◌<◌, ◌≡◌, refl, ap, ◌∙◌, Bool, true, false, List, [], ◌∷◌, ◌++◌, leb,
  if_true, Option, some, none, arith, length, All, drop, length-append,
}
use cyntatic.Utf8.{front}
use cyntatic.Source.{min_of, LineColumn, Range, range_update, count_lines}
use cyntatic.Token.{TokenKind, Token}
use cyntatic.Lexer.State.{
  Lexer, ok, char_at, move, advance, skip_fuel, skip_while, made, update_token, Position,
}
use cyntatic.Lexer.Keywords.{find_keyword}
use cyntatic.Lexer.Words.{is_name, name, name_token, keyword_value}
use cyntatic.Lexer.Moves.{IsTracked, origin}
use cyntatic.Lexer.Moves.Cursor.{pos_from-count_lines}

-- What a text that goes on with a character has at its place.
pub drop-cons :
    (text : List ℕ) (i c : ℕ) (rest : List ℕ)
    → drop i text ≡ c ∷ rest
    → (char_at text i ≡ c) × (drop (suc i) text ≡ rest) × (i < length text)
drop-cons [] zero c rest e = absurd (cc)
drop-cons [] (suc i) c rest e = absurd (cc)
drop-cons (d ∷ text) zero c rest e = (cc, cc, omega arith)
drop-cons (d ∷ text) (suc i) c rest e =
    let (at, more, lt) = drop-cons text i c rest e in (at, more, omega arith)

pub char_at-drop : (text : List ℕ) (i : ℕ) → char_at text i ≡ char_at (drop i text) 0
char_at-drop text zero = refl
char_at-drop [] (suc i) = refl
char_at-drop (c ∷ text) (suc i) = char_at-drop text i

pub front-append : (xs ys : List ℕ) → front (length xs) (xs ++ ys) ≡ xs
unfolding front
front-append [] ys = refl
front-append (x ∷ xs) ys = ap (λ zs. x ∷ zs) (front-append xs ys)

-- The lexer at a place of its text, with the position of that place.
abbrev pub placed : Lexer → ℕ → Lexer
placed lx i = record lx { idx = i; pos = count_lines i lx.text origin }

move-placed :
    (lx : Lexer) (i : ℕ) → i < length lx.text → move 1 (placed lx i) ≡ ok _ (placed lx (suc i))
unfolding advance
move-placed lx i lt =
    let end : min_of (length lx.text) (i + 1) ≡ suc i = ground arith in
    let one : suc i - i ≡ 1 = omega arith in
    let next : i + 1 ≡ suc i = omega arith in
    rw (end, one)
      (ap (λ p. ok _ (record lx { idx = suc i; pos = p }))
        (pos_from-count_lines lx.text i 1 origin (omega arith)
          ∙ ap (λ j. count_lines j lx.text origin) next))

-- The loop takes the characters that pass the test, up to the first that fails it.
pub skip_fuel-takes :
    (test : ℕ → Bool) (word rest : List ℕ) (n i : ℕ) (lx : Lexer)
    → drop i lx.text ≡ word ++ rest
    → All (λ c. test c ≡ true) word
    → test (char_at rest 0) ≡ false
    → length word < n
    → skip_fuel test n (placed lx i) ≡ ok (char_at rest 0) (placed lx (i + length word))
unfolding skip_fuel
skip_fuel-takes test word rest zero i lx e all ends lt = absurd (omega arith)
skip_fuel-takes test [] rest (suc n) i lx e all ends lt =
    let at : char_at lx.text i ≡ char_at rest 0 =
      char_at-drop lx.text i ∙ ap (λ t. char_at t 0) e in
    let here : i ≡ i + 0 = omega arith in
    rw (at, ends) (ap (λ j. ok (char_at rest 0) (placed lx j)) here)
skip_fuel-takes test (c ∷ word) rest (suc n) i lx e (holds, all) ends lt =
    let (at, more, inside) = drop-cons lx.text i c (word ++ rest) e in
    let same : suc i + length word ≡ i + suc (length word) = omega arith in
    rw (at, holds, move-placed lx i inside)
      (skip_fuel-takes test word rest n (suc i) lx more all ends (omega arith)
        ∙ ap (λ j. ok (char_at rest 0) (placed lx j)) same)

-- The kind of a word, by what the map of keywords has.
abbrev pub kind_of : Option TokenKind → TokenKind
kind_of (some k) = k
kind_of none = TokenKind.identifier

-- The value that the token of a word has: `true` and `false` have one.
abbrev pub valued : Option TokenKind → Token → Token
valued (some k) tok = keyword_value k tok
valued none tok = tok

abbrev pub word_range : Lexer → List ℕ → Range
word_range lx word = record {
  source = lx.source;
  start = lx.idx;
  end = lx.idx + length word;
  coord = lx.pos;
}

pub le→leb : (a b : ℕ) → a ≤ b → leb a b ≡ true
le→leb a b h = ground arith

pub drop-length : (i : ℕ) (text : List ℕ) → length (drop i text) ≤ length text
drop-length zero text = omega arith
drop-length (suc i) [] = omega arith
drop-length (suc i) (c ∷ text) = (let h = drop-length i text in omega arith)

range_update-le :
    (source s e : ℕ) (pos : LineColumn)
    → s ≤ e
    → range_update source s e pos
      ≡ some (record { source = source; start = s; end = e; coord = pos })
unfolding range_update
range_update-le source s e pos le = if_true _ (le→leb s e le)

pub update_token-range :
    (tok : Token) (kind : TokenKind) (s e : ℕ) (pos : LineColumn) (lx : Lexer)
    → s ≤ e
    → update_token tok kind s e pos lx
      ≡ ok
          (
            kind,
            record tok {
              kind = kind;
              range = record { source = lx.source; start = s; end = e; coord = pos };
            },
          )
          lx
unfolding update_token
update_token-range tok kind s e pos lx le =
    rw (update_token, range_update-le lx.source s e pos le) refl

name_token-word :
    (k : Option TokenKind) (start : Position) (tok : Token) (lx : Lexer)
    → start.at ≤ lx.idx
    → name_token tok start k lx
      ≡ ok
          (
            kind_of k,
            record (valued k tok) {
              kind = kind_of k;
              range = record {
                source = lx.source;
                start = start.at;
                end = lx.idx;
                coord = start.coord;
              };
            },
          )
          lx
unfolding name_token made
name_token-word none start tok lx le = update_token-range tok _ start.at lx.idx start.coord lx le
name_token-word (some k) start tok lx le =
    update_token-range (keyword_value k tok) k start.at lx.idx start.coord lx le

-- At a word that ends before a character that no name goes on with, or at the end of the text,
-- `Lexer_tokIdent` returns the keyword that the word is, or an identifier, with the range and the
-- position of the word, and the lexer stands behind the word, with the position of that place.
pub name-longest :
    (tok : Token) (word rest : List ℕ) (lx : Lexer)
    → IsTracked lx
    → drop lx.idx lx.text ≡ word ++ rest
    → All (λ c. is_name c ≡ true) word
    → is_name (char_at rest 0) ≡ false
    → name tok lx
      ≡ ok
          (
            kind_of (find_keyword word),
            record (valued (find_keyword word) tok) {
              kind = kind_of (find_keyword word);
              range = word_range lx word;
            },
          )
          (placed lx (lx.idx + length word))
unfolding name
name-longest tok word rest lx (le, p) e all ends =
    let here : lx ≡ placed lx lx.idx = ap (λ q. record lx { pos = q }) p in
    let short : length word < suc (length lx.text) =
      let h = drop-length lx.idx lx.text in
      let h' = ap length e ∙ length-append word rest in omega arith in
    let taken : skip_while is_name lx ≡ ok (char_at rest 0) (placed lx (lx.idx + length word)) =
      ap (skip_fuel is_name (suc (length lx.text))) here
      ∙ skip_fuel-takes is_name word rest (suc (length lx.text)) lx.idx lx e all ends short in
    let size : lx.idx + length word - lx.idx ≡ length word = omega arith in
    let text : front (lx.idx + length word - lx.idx) (drop lx.idx lx.text) ≡ word =
      rw (size, e) (front-append word rest) in
    rw (taken, text)
      (name_token-word (find_keyword word) _ tok (placed lx (lx.idx + length word)) (omega arith))
