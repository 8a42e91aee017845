-- ===== src/Pst/Ltp/Text/Rounds.antt =====
-- `utf8ToUtf16le` of src/pst/ltp.cpp on the UTF-8 text that `appendUtf8` of src/imap/imap_parse.cpp writes.
use imap2pst.Base.{
  ℕ, zero, suc, ◌+◌, ◌*◌, ◌/◌, ◌%◌, ◌^◌, ◌≤◌, ◌<◌, ◌≡◌, refl, sym, ap, ap₂, ◌∙◌, arith, List, [],
  ◌∷◌, ◌++◌, append_assoc, append-nil, length-append, All, false, Bool-cases, inl, inr, ◌⊎◌, ◌&&◌,
  ◌||◌, ltb, leb, ltb→lt, ltb→ge, length, drop, bit_and, bit_or, u8, ◌>>>◌,
}
use imap2pst.Imap.Utf7.{utf8_bytes}
use imap2pst.Pst.Ltp.Text.{
  lead_byte, follow_bytes, next_point, put_point, utf16_loop, utf8_to_utf16le,
}
use imap2pst.Pst.Ltp.Text.Units.{utf16_bytes, utf16_text, put_point-utf16_bytes}
use imap2pst.Pst.Ltp.Text.Points.{
  lead_one, lead_two, lead_three, lead_four, follow_one, continues, starts_two, starts_three,
  starts_four,
}

-- A Unicode scalar value.
unfoldable pub IsScalar : ℕ → Type 0
IsScalar cp = (cp < 0xD800) ⊎ ((0xDFFF < cp) × (cp < 0x110000))

-- The text of some code points in UTF-8, as the IMAP side writes it.
pub utf8_text : List ℕ → List ℕ
utf8_text [] = []
utf8_text (cp ∷ cps) = utf8_bytes cp ++ utf8_text cps

-- The code point that begins with `c`, from its parts.
decoded :
    (c x extra cp : ℕ) (rest : List ℕ)
    → lead_byte c ≡ (x, extra)
    → extra ≤ length rest
    → follow_bytes extra extra x rest ≡ (cp, extra)
    → IsScalar cp
    → next_point c rest ≡ (cp, extra)
unfolding next_point IsScalar
decoded c x extra cp rest lead long follow scalar =
    rw (lead, short extra (length rest) long, follow, good cp scalar) refl
  where
    short : (a b : ℕ) → a ≤ b → ltb b a ≡ false
    short a b h = ground arith

    good :
        (cp : ℕ)
        → (cp < 0xD800) ⊎ ((0xDFFF < cp) × (cp < 0x110000))
        → (ltb 0x10FFFF cp || (leb 0xD800 cp && leb cp 0xDFFF)) ≡ false
    good cp h = ground arith

-- One round of the loop takes one code point.
IsOneRound : ℕ → Type 0
IsOneRound cp =
    (fuel : ℕ) (out tail : List ℕ)
    → utf16_loop (suc fuel) out (utf8_bytes cp ++ tail) ≡ utf16_loop fuel (put_point out cp) tail

round_one : (cp : ℕ) → IsScalar cp → cp < 0x80 → IsOneRound cp
unfolding IsOneRound utf16_loop utf8_bytes follow_bytes
round_one cp scalar h fuel out tail =
    ap (λ bytes. utf16_loop (suc fuel) out (bytes ++ tail)) (shape cp h)
    ∙ ap (λ r. utf16_loop fuel (put_point out r.0) (drop r.1 tail))
        (decoded cp cp 0 cp tail (lead_one cp h) (omega arith) refl scalar)
  where
    shape : (cp : ℕ) → cp < 0x80 → utf8_bytes cp ≡ cp ∷ []
    shape cp h = ground arith

round_two : (cp : ℕ) → IsScalar cp → 0x80 ≤ cp → cp < 0x800 → IsOneRound cp
unfolding IsOneRound utf16_loop utf8_bytes follow_bytes
round_two cp scalar low h fuel out tail =
    let y : ℕ = 0x80 + cp % 64 in
    let bytes : utf8_bytes cp ≡ (0xC0 + cp / 64) ∷ y ∷ [] =
      shape cp low h
      ∙ ap₂ (λ a b. a ∷ b ∷ []) (starts_two (cp / 64) (omega arith)) (continues cp) in
    ap (λ bytes. utf16_loop (suc fuel) out (bytes ++ tail)) bytes
    ∙ ap (λ r. utf16_loop fuel (put_point out r.0) (drop r.1 (y ∷ tail)))
        (decoded (0xC0 + cp / 64) (cp / 64) 1 cp (y ∷ tail) (lead_two (cp / 64) (omega arith))
          (omega arith)
          (follow_one 0 1 (cp / 64) (cp % 64) tail (omega arith) (omega arith)
            ∙ ap (λ n. (n, 1)) (omega arith))
          scalar)
  where
    shape :
        (cp : ℕ)
        → 0x80 ≤ cp
        → cp < 0x800
        → utf8_bytes cp ≡ u8 (bit_or 0xC0 (cp >>> 6)) ∷ u8 (bit_or 0x80 (bit_and cp 0x3F)) ∷ []
    shape cp low h = ground arith

round_three : (cp : ℕ) → IsScalar cp → 0x800 ≤ cp → cp < 0x10000 → IsOneRound cp
unfolding IsOneRound utf16_loop utf8_bytes follow_bytes
round_three cp scalar low h fuel out tail =
    let x : ℕ = cp / 2 ^ 12 in
    let y : ℕ = cp / 2 ^ 6 in
    let after : List ℕ = (0x80 + y % 64) ∷ (0x80 + cp % 64) ∷ tail in
    let bytes : utf8_bytes cp ≡ (0xE0 + x) ∷ (0x80 + y % 64) ∷ (0x80 + cp % 64) ∷ [] =
      shape cp low h
      ∙ ap₂ (λ a b. a ∷ b ∷ u8 (bit_or 0x80 (bit_and cp 0x3F)) ∷ []) (starts_three x (omega arith))
          (continues y)
      ∙ ap (λ c. (0xE0 + x) ∷ (0x80 + y % 64) ∷ c ∷ []) (continues cp) in
    ap (λ bytes. utf16_loop (suc fuel) out (bytes ++ tail)) bytes
    ∙ ap (λ r. utf16_loop fuel (put_point out r.0) (drop r.1 after))
        (decoded (0xE0 + x) x 2 cp after (lead_three x (omega arith)) (omega arith)
          (follow_one 1 2 x (y % 64) ((0x80 + cp % 64) ∷ tail) (omega arith) (omega arith)
            ∙ follow_one 0 2 (x * 64 + y % 64) (cp % 64) tail (omega arith) (omega arith)
            ∙ ap (λ n. (n, 2)) (omega arith))
          scalar)
  where
    shape :
        (cp : ℕ)
        → 0x800 ≤ cp
        → cp < 0x10000
        → utf8_bytes cp
          ≡ u8 (bit_or 0xE0 (cp >>> 12))
            ∷ u8 (bit_or 0x80 (bit_and (cp >>> 6) 0x3F))
            ∷ u8 (bit_or 0x80 (bit_and cp 0x3F))
            ∷ []
    shape cp low h = ground arith

round_four : (cp : ℕ) → IsScalar cp → 0x10000 ≤ cp → cp < 0x110000 → IsOneRound cp
unfolding IsOneRound utf16_loop utf8_bytes follow_bytes
round_four cp scalar low h fuel out tail =
    let x : ℕ = cp / 2 ^ 18 in
    let y : ℕ = cp / 2 ^ 12 in
    let z : ℕ = cp / 2 ^ 6 in
    let after : List ℕ = (0x80 + y % 64) ∷ (0x80 + z % 64) ∷ (0x80 + cp % 64) ∷ tail in
    let bytes : utf8_bytes cp
        ≡ (0xF0 + x) ∷ (0x80 + y % 64) ∷ (0x80 + z % 64) ∷ (0x80 + cp % 64) ∷ [] =
      shape cp low h
      ∙ ap₂
          (λ a b.
            a ∷ b ∷ u8 (bit_or 0x80 (bit_and z 0x3F)) ∷ u8 (bit_or 0x80 (bit_and cp 0x3F)) ∷ [])
          (starts_four x (omega arith)) (continues y)
      ∙ ap₂ (λ a b. (0xF0 + x) ∷ (0x80 + y % 64) ∷ a ∷ b ∷ []) (continues z) (continues cp) in
    ap (λ bytes. utf16_loop (suc fuel) out (bytes ++ tail)) bytes
    ∙ ap (λ r. utf16_loop fuel (put_point out r.0) (drop r.1 after))
        (decoded (0xF0 + x) x 3 cp after (lead_four x (omega arith)) (omega arith)
          (follow_one 2 3 x (y % 64) ((0x80 + z % 64) ∷ (0x80 + cp % 64) ∷ tail) (omega arith)
              (omega arith)
            ∙ follow_one 1 3 (x * 64 + y % 64) (z % 64) ((0x80 + cp % 64) ∷ tail) (omega arith)
                (omega arith)
            ∙ follow_one 0 3 ((x * 64 + y % 64) * 64 + z % 64) (cp % 64) tail (omega arith)
                (omega arith)
            ∙ ap (λ n. (n, 3)) (omega arith))
          scalar)
  where
    shape :
        (cp : ℕ)
        → 0x10000 ≤ cp
        → cp < 0x110000
        → utf8_bytes cp
          ≡ u8 (bit_or 0xF0 (cp >>> 18))
            ∷ u8 (bit_or 0x80 (bit_and (cp >>> 12) 0x3F))
            ∷ u8 (bit_or 0x80 (bit_and (cp >>> 6) 0x3F))
            ∷ u8 (bit_or 0x80 (bit_and cp 0x3F))
            ∷ []
    shape cp low h = ground arith

one_round : (cp : ℕ) → IsScalar cp → IsOneRound cp
unfolding IsScalar
one_round cp scalar = elim (Bool-cases (ltb cp 0x80)) [
  | inl a ↦ round_one cp scalar (ltb→lt _ _ a)
  | inr a ↦ elim (Bool-cases (ltb cp 0x800)) [
    | inl b ↦ round_two cp scalar (ltb→ge _ _ a) (ltb→lt _ _ b)
    | inr b ↦ elim (Bool-cases (ltb cp 0x10000)) [
      | inl c ↦ round_three cp scalar (ltb→ge _ _ b) (ltb→lt _ _ c)
      | inr c ↦ round_four cp scalar (ltb→ge _ _ c) (omega (arith, ltb→ge _ _ c, scalar))
    ]
  ]
]

some_bytes : (cp : ℕ) → 1 ≤ length (utf8_bytes cp)
unfolding utf8_bytes
some_bytes cp = ground arith

loop-utf8_text :
    (fuel : ℕ) (out cps : List ℕ)
    → All IsScalar cps
    → length (utf8_text cps) ≤ fuel
    → utf16_loop fuel out (utf8_text cps) ≡ out ++ utf16_text cps
unfolding utf16_loop utf8_text utf16_text IsOneRound IsScalar
loop-utf8_text zero out [] h enough = sym (append-nil out)
loop-utf8_text (suc fuel) out [] h enough = sym (append-nil out)
loop-utf8_text zero out (cp ∷ cps) h enough =
    absurd (omega (arith, length-append (utf8_bytes cp) (utf8_text cps), some_bytes cp))
loop-utf8_text (suc fuel) out (cp ∷ cps) h enough =
    one_round cp h.0 fuel out (utf8_text cps)
    ∙ loop-utf8_text fuel (put_point out cp) cps h.1
        (omega (arith, length-append (utf8_bytes cp) (utf8_text cps), some_bytes cp))
    ∙ ap (λ t. t ++ utf16_text cps) (put_point-utf16_bytes out cp (omega (arith, h.0)))
    ∙ append_assoc out (utf16_bytes cp) (utf16_text cps)

-- A text of Unicode scalar values that the IMAP side has written in UTF-8 becomes, in a property, the text of the same
-- values in UTF-16, low byte first: nothing is replaced, and a value above 0xFFFF becomes its high surrogate and then
-- its low one, as the standard divides it.
pub utf8_to_utf16le-utf8_text :
    (cps : List ℕ) → All IsScalar cps → utf8_to_utf16le (utf8_text cps) ≡ utf16_text cps
unfolding utf8_to_utf16le
utf8_to_utf16le-utf8_text cps h = loop-utf8_text (length (utf8_text cps)) [] cps h (omega arith)
