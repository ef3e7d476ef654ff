-- ===== src/Source.antt =====
-- Ranges of a source text (include/compiler/common/source.h, src/compiler/common/source.c). A source is
-- known by a number, and its text is a list of characters; `none` is a failed assertion.
pub mod Merge
mod Tests
use cyntatic.Word.{add32}
use cyntatic.Prelude.{
  ℕ, zero, suc, ◌+◌, ◌-◌, Bool, true, false, ◌&&◌, Option, some, none, List, [], ◌∷◌, ltb, leb,
  ◌==◌, if◌then◌else◌,
}

-- `LineColumn`.
pub record LineColumn : Type 0 where
  pub line : ℕ
  pub column : ℕ

-- `Range`.
pub record Range : Type 0 where
  pub source : ℕ
  pub start : ℕ
  pub end : ℕ
  pub coord : LineColumn

-- `Range_update`.
unfoldable pub range_update : ℕ → ℕ → ℕ → LineColumn → Option Range
range_update src s e pos =
    if leb s e then some (record { source = src; start = s; end = e; coord = pos }) else none

-- `Range_size`.
unfoldable pub range_size : Range → Option ℕ
range_size r = if leb r.start r.end then some (r.end - r.start) else none

-- `Range_equals`; the test for one and the same object changes nothing.
unfoldable pub range_equals : Range → Range → Bool
range_equals a b = a.source == b.source && (a.start == b.start && a.end == b.end)

-- `Range_atEnd`.
unfoldable pub at_end : Range → Option Range
unfolding range_update
at_end r = range_update r.source r.end r.end r.coord

abbrev pub min_of : ℕ → ℕ → ℕ
min_of a b = if ltb a b then a else b

abbrev pub max_of : ℕ → ℕ → ℕ
max_of a b = if ltb b a then a else b

-- `Range_merge`.
unfoldable pub merge : Range → Range → Option Range
unfolding range_update
merge r with_range =
    let s = min_of r.start with_range.start in
    if r.source == with_range.source
    then range_update r.source s (max_of r.end with_range.end)
        (if s == r.start then r.coord else with_range.coord)
    else none

-- `Range_mergeWith`.
unfoldable pub merge_with : Range → Range → Option Range
merge_with r with_range =
    let moved = if ltb with_range.start r.start then record r { coord = with_range.coord } else r in
    if r.source == with_range.source
    then some (record moved {
      start = min_of r.start with_range.start;
      end = max_of r.end with_range.end;
    })
    else none

-- The assertions of `Range_extend` and `Range_extendWith`.
abbrev pub extends : Range → Range → Bool
extends r with_range =
    r.source == with_range.source && (leb r.start with_range.start && leb r.end with_range.end)

-- `Range_extend`.
unfoldable pub extend : Range → Range → Option Range
unfolding range_update
extend r with_range =
    if extends r with_range then range_update r.source r.start with_range.end r.coord else none

-- `Range_extendWith`.
unfoldable pub extend_with : Range → Range → Option Range
extend_with r with_range =
    if extends r with_range then some (record r { end = with_range.end }) else none

-- The loop of `Range_sub` over the first `n` characters.
unfoldable pub count_lines : ℕ → List ℕ → LineColumn → LineColumn
count_lines zero text pos = pos
count_lines (suc n) [] pos = pos
count_lines (suc n) (c ∷ text) pos = count_lines n text (
    if c == b'\n'
    then record { line = add32 pos.line 1; column = 0 }
    else record pos { column = add32 pos.column 1 })

-- `Range_sub`; a position in the range stands in the text.
unfoldable pub sub_range : List ℕ → Range → ℕ → ℕ → Option Range
unfolding count_lines range_update
sub_range text r s len =
    let i = add32 r.start s in
    let e = if len == 0 then r.end else add32 i len in
    if leb i r.end && leb e r.end
    then range_update r.source i e (count_lines i text (record { line = 0; column = 0 }))
    else none
