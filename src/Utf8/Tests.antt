-- ===== src/Utf8/Tests.antt =====
-- The encoder and the decoder at the euro sign.
use cyntatic.Prelude.{◌≡◌, refl, some, [], ◌∷◌, arith}
use cyntatic.Utf8.{put_utf8, clz, rune_of, read_rune, rune, invalid}
use cyntatic.Utf8.RoundTrip.{read_rune-put_utf8, read_rune_long}

euro : put_utf8 0x20ac ≡ some (0xe2 ∷ 0x82 ∷ 0xac ∷ [])
unfolding put_utf8
euro = refl

euro_read : read_rune (0xe2 ∷ 0x82 ∷ 0xac ∷ 0x2e ∷ []) 3 ≡ rune 3 0x20ac
unfolding read_rune rune_of clz
euro_read = refl

read_rune-put_utf8_example : read_rune (0xe2 ∷ 0x82 ∷ 0xac ∷ 0x2e ∷ []) 3 ≡ rune 3 0x20ac
read_rune-put_utf8_example = read_rune-put_utf8 0x20ac (0x2e ∷ []) euro

read_rune_long_example : read_rune (0xe2 ∷ 0x82 ∷ 0xac ∷ 0x2e ∷ []) 4 ≡ invalid
read_rune_long_example = read_rune_long 0x20ac 4 (0x2e ∷ []) euro (omega arith) (omega arith)
