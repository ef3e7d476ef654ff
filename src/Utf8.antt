-- ===== src/Utf8.antt =====
-- UTF-8: the encoder that `Stream_putUtf8` (src/stream.c) and `VM_put_utf8_chr_` (src/vm/utils.c)
-- share, and the decoder `Lexer_readRune` with `Lexer_clz` (src/compiler/common/lexer.c). A mask
-- `x & (2^k - 1)` is a remainder, and `|` of parts that share no bit is their sum.
pub mod RoundTrip
mod Tests
use cyntatic.Prelude.{
  ℕ, zero, suc, ◌+◌, ◌-◌, ◌*◌, ◌/◌, ◌%◌, ◌^◌, Bool, true, false, ◌&&◌, Option, some, none, List, [],
  ◌∷◌, ltb, ◌==◌, if◌then◌else◌,
}

-- The bytes written for a code point; `none` for the ones that end the program.
unfoldable pub put_utf8 : ℕ → Option (List ℕ)
put_utf8 chr =
    if ltb chr 0x80
    then some (chr ∷ [])
    else if ltb chr 0x800
    then some ((0xc0 + chr / 2 ^ 6) ∷ (0x80 + chr % 0x40) ∷ [])
    else if ltb chr 0x1_0000
    then some ((0xe0 + chr / 2 ^ 12) ∷ (0x80 + chr / 2 ^ 6 % 0x40) ∷ (0x80 + chr % 0x40) ∷ [])
    else if ltb chr 0x20_0000
    then some (
        (0xf0 + chr / 2 ^ 18)
        ∷ (0x80 + chr / 2 ^ 12 % 0x40)
        ∷ (0x80 + chr / 2 ^ 6 % 0x40)
        ∷ (0x80 + chr % 0x40)
        ∷ [])
    else none

-- The loop of `Lexer_clz`, from bit `i - 1` down: the number of leading ones of a byte.
unfoldable pub clz_from : ℕ → ℕ → ℕ
clz_from zero c = 8
clz_from (suc i) c = let more = clz_from i c in if c / 2 ^ i % 2 == 0 then 7 - i else more

-- `Lexer_clz`.
unfoldable pub clz : ℕ → ℕ
unfolding clz_from
clz c = clz_from 8 c

-- How `Lexer_readRune` ends: a size and a code point, an error that aborts the compiler, or a read
-- past the source text.
pub data Rune : Type 0 where
  rune : ℕ → ℕ → Rune
  invalid : Rune
  out_of_text : Rune

-- `(s[i] & 0xC0) == 0x80` for the `n` bytes that follow.
unfoldable pub continuations : ℕ → List ℕ → Option Bool
continuations zero s = some true
continuations (suc n) [] = none
continuations (suc n) (b ∷ s) =
    let more = continuations n s in if b / 0x40 == 2 then more else some false

-- The switch on the length at the end of `Lexer_readRune`.
unfoldable pub rune_value : ℕ → List ℕ → Rune
rune_value len (a ∷ b ∷ []) = if len == 2 then rune 2 (a % 0x20 * 2 ^ 6 + b % 0x40) else invalid
rune_value len (a ∷ b ∷ c ∷ []) =
    if len == 3 then rune 3 (a % 0x10 * 2 ^ 12 + b % 0x40 * 2 ^ 6 + c % 0x40) else invalid
rune_value len (a ∷ b ∷ c ∷ d ∷ []) =
    if len == 4
    then rune 4 (a % 0x8 * 2 ^ 18 + b % 0x40 * 2 ^ 12 + c % 0x40 * 2 ^ 6 + d % 0x40)
    else invalid
rune_value len s = invalid

-- The first `n` items of a list.
unfoldable pub front : ℕ → List ℕ → List ℕ
front zero s = []
front (suc n) [] = []
front (suc n) (b ∷ s) = b ∷ front n s

-- `Lexer_readRune` behind the count of leading ones of the first byte `a`.
unfoldable pub rune_of : ℕ → ℕ → List ℕ → ℕ → Rune
unfolding continuations rune_value front
rune_of len a s count =
    if len == 0
    then rune 1 a
    else if ltb len count
    then invalid
    else elim (continuations (len - 1) s) [
      | none ↦ out_of_text
      | some good ↦ if good then rune_value len (front len (a ∷ s)) else invalid
    ]

-- `Lexer_readRune` on a view of `count` bytes; `s` is the text from the start of the view on.
unfoldable pub read_rune : List ℕ → ℕ → Rune
read_rune [] count = out_of_text
read_rune (a ∷ s) count = rune_of (clz a) a s count
