-- ===== src/Utf8/RoundTrip.antt =====
-- What the encoder writes, the decoder reads back.
use cyntatic.Prelude.{
  ℕ, suc, ◌+◌, ◌*◌, ◌/◌, ◌%◌, ◌^◌, ◌<◌, ◌≤◌, ◌≡◌, refl, inl, inr, true, false, some, List, ◌∷◌,
  ◌++◌, ap, ◌∙◌, of_some_eq, arith, ltb, ◌==◌, Bool-cases, length,
}
use cyntatic.Utf8.{put_utf8, clz, rune_of, read_rune, rune, invalid}

-- The leading ones of the first byte give the number of bytes.
clz_two : (x : ℕ) → x < 0x20 → clz (0xc0 + x) ≡ 2
unfolding clz
clz_two x h = ground arith

clz_three : (x : ℕ) → x < 0x10 → clz (0xe0 + x) ≡ 3
unfolding clz
clz_three x h = ground arith

clz_four : (x : ℕ) → x < 0x8 → clz (0xf0 + x) ≡ 4
unfolding clz
clz_four x h = ground arith

clz_one : (x : ℕ) → x < 0x80 → clz x ≡ 0
unfolding clz
clz_one x h = ground arith

-- The four forms of an encoding, each with what the decoder makes of it.
continuation : (y : ℕ) → y < 0x40 → ((0x80 + y) / 0x40 == 2) ≡ true
continuation y h = ground arith

decode_one : (c count : ℕ) (post : List ℕ) → c < 0x80 → read_rune (c ∷ post) count ≡ rune 1 c
unfolding read_rune rune_of
decode_one c count post h = rw (clz_one c h)

decode_two :
    (x y : ℕ) (post : List ℕ)
    → x < 0x20
    → y < 0x40
    → read_rune ((0xc0 + x) ∷ (0x80 + y) ∷ post) 2 ≡ rune 2 (x * 2 ^ 6 + y)
unfolding read_rune
decode_two x y post hx hy =
    rw (clz_two x hx) (unfold rune_of in rw (continuation y hy) (ap (rune 2) (omega arith)))

decode_three :
    (x y z : ℕ) (post : List ℕ)
    → x < 0x10
    → y < 0x40
    → z < 0x40
    → read_rune ((0xe0 + x) ∷ (0x80 + y) ∷ (0x80 + z) ∷ post) 3
      ≡ rune 3 (x * 2 ^ 12 + y * 2 ^ 6 + z)
unfolding read_rune
decode_three x y z post hx hy hz =
    rw (clz_three x hx)
      (unfold rune_of in rw (continuation y hy, continuation z hz) (ap (rune 3) (omega arith)))

decode_four :
    (x y z w : ℕ) (post : List ℕ)
    → x < 0x8
    → y < 0x40
    → z < 0x40
    → w < 0x40
    → read_rune ((0xf0 + x) ∷ (0x80 + y) ∷ (0x80 + z) ∷ (0x80 + w) ∷ post) 4
      ≡ rune 4 (x * 2 ^ 18 + y * 2 ^ 12 + z * 2 ^ 6 + w)
unfolding read_rune
decode_four x y z w post hx hy hz hw = rw (clz_four x hx) (
    unfold rune_of in
    rw (continuation y hy, continuation z hz, continuation w hw) (ap (rune 4) (omega arith)))

-- Every code point that is encoded is decoded again, from the bytes written and with a view of exactly
-- those bytes, whatever text follows them.
pub read_rune-put_utf8 :
    (c : ℕ) (post : List ℕ) {bs : List ℕ}
    → put_utf8 c ≡ some bs
    → read_rune (bs ++ post) (length bs) ≡ rune (length bs) c
unfolding put_utf8
read_rune-put_utf8 c post {bs} e = elim (Bool-cases (ltb c 0x80)) [
  | inl one ↦
      of_some_eq (λ bs. read_rune (bs ++ post) (length bs) ≡ rune (length bs) c) (rw one at e)
        (decode_one c 1 post (ground arith))
  | inr more_one ↦ elim (Bool-cases (ltb c 0x800)) [
    | inl two ↦
        of_some_eq (λ bs. read_rune (bs ++ post) (length bs) ≡ rune (length bs) c)
          (rw (more_one, two) at e)
          (decode_two (c / 2 ^ 6) (c % 0x40) post (ground arith) (omega arith)
            ∙ ap (rune 2) (omega arith))
    | inr more_two ↦ elim (Bool-cases (ltb c 0x1_0000)) [
      | inl three ↦
          of_some_eq (λ bs. read_rune (bs ++ post) (length bs) ≡ rune (length bs) c)
            (rw (more_one, more_two, three) at e)
            (decode_three (c / 2 ^ 12) (c / 2 ^ 6 % 0x40) (c % 0x40) post (ground arith)
                (omega arith) (omega arith)
              ∙ ap (rune 3) (omega arith))
      | inr more_three ↦ elim (Bool-cases (ltb c 0x20_0000)) [
        | inl four ↦
            of_some_eq (λ bs. read_rune (bs ++ post) (length bs) ≡ rune (length bs) c)
              (rw (more_one, more_two, more_three, four) at e)
              (decode_four (c / 2 ^ 18) (c / 2 ^ 12 % 0x40) (c / 2 ^ 6 % 0x40) (c % 0x40) post
                  (ground arith) (omega arith) (omega arith) (omega arith)
                ∙ ap (rune 4) (omega arith))
        | inr beyond ↦ absurd (cc (rw (more_one, more_two, more_three, beyond) at e))
      ]
    ]
  ]
]

-- The first byte of an encoding of several bytes, and how many ones it starts with.
abbrev Head : List ℕ → Type 0
Head bs = (a : ℕ) × (rest : List ℕ) × (bs ≡ a ∷ rest) × (clz a ≡ length bs)

put_utf8-Head : (c : ℕ) {bs : List ℕ} → put_utf8 c ≡ some bs → 0x80 ≤ c → Head bs
unfolding put_utf8
put_utf8-Head c e h =
    let more_one : ltb c 0x80 ≡ false = ground arith in
    elim (Bool-cases (ltb c 0x800)) [
      | inl two ↦
          of_some_eq Head (rw (more_one, two) at e) (_, _, refl, clz_two (c / 2 ^ 6) (ground arith))
      | inr more_two ↦ elim (Bool-cases (ltb c 0x1_0000)) [
        | inl three ↦
            of_some_eq Head (rw (more_one, more_two, three) at e)
              (_, _, refl, clz_three (c / 2 ^ 12) (ground arith))
        | inr more_three ↦ elim (Bool-cases (ltb c 0x20_0000)) [
          | inl four ↦
              of_some_eq Head (rw (more_one, more_two, more_three, four) at e)
                (_, _, refl, clz_four (c / 2 ^ 18) (ground arith))
          | inr beyond ↦ absurd (cc (rw (more_one, more_two, more_three, beyond) at e))
        ]
      ]
    ]

-- A view that goes on behind a character of several bytes is refused, though the character is valid.
pub read_rune_long :
    (c count : ℕ) (post : List ℕ) {bs : List ℕ}
    → put_utf8 c ≡ some bs
    → 0x80 ≤ c
    → length bs < count
    → read_rune (bs ++ post) count ≡ invalid
unfolding read_rune rune_of
read_rune_long c count post e h longer =
    let (a, rest, shape, ones) = put_utf8-Head c e h in
    let size : length (a ∷ rest) < count = rw shape at longer in
    let len : clz a ≡ suc (length rest) = rw shape at ones in
    let test : ltb (suc (length rest)) count ≡ true = ground arith in
    let nz : (suc (length rest) == 0) ≡ false = ground arith in rw shape (rw len (rw (nz, test)))
