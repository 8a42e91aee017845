-- ===== src/Mime/Encodings/Base64.antt =====
-- `decodeBase64` of src/mime/encodings.cpp against the standard encoding.
use imap2pst.Base.{
  ℕ, ◌+◌, ◌-◌, ◌*◌, ◌/◌, ◌%◌, ◌^◌, ◌<◌, ◌≡◌, refl, sym, ap, ap₂, ◌∙◌, arith, List, [], ◌∷◌, true,
  false, Bool-cases, inl, inr, none, some, Option-cases, ltb, leb, ◌==◌, if◌then◌else◌, All, u32,
  bit_or, bit_and, ◌<<<◌, ◌>>>◌,
}
use imap2pst.Base.Bits.{bit_or_fields, bit_and_mask}
use imap2pst.Mime.Encodings.{base64_value, base64_loop, decode_base64}

-- The character for a value below 64.
unfoldable pub base64_char : ℕ → ℕ
base64_char v =
    if ltb v 26
    then 0x41 + v
    else if ltb v 52
    then 0x61 + (v - 26)
    else if ltb v 62
    then 0x30 + (v - 52)
    else if v == 62
    then 0x2B
    else 0x2F

-- The encoder of the standard: four characters for three bytes, padding at the end.
unfoldable pub encode_base64 : List ℕ → List ℕ
encode_base64 [] = []
encode_base64 (a ∷ []) = base64_char (a / 4) ∷ base64_char (a % 4 * 16) ∷ 0x3D ∷ 0x3D ∷ []
encode_base64 (a ∷ b ∷ []) =
    base64_char (a / 4) ∷ base64_char (a % 4 * 16 + b / 16) ∷ base64_char (b % 16 * 4) ∷ 0x3D ∷ []
encode_base64 (a ∷ b ∷ c ∷ rest) =
    base64_char (a / 4)
    ∷ base64_char (a % 4 * 16 + b / 16)
    ∷ base64_char (b % 16 * 4 + c / 64)
    ∷ base64_char (c % 64)
    ∷ encode_base64 rest

-- The text without the characters that are neither in the alphabet nor padding.
unfoldable pub strip : List ℕ → List ℕ
strip [] = []
strip (c ∷ cs) =
    if c == 0x3D
    then c ∷ strip cs
    else elim (base64_value c) [ none ↦ strip cs | some v ↦ c ∷ strip cs ]

char_value :
    (v : ℕ) → v < 64 → (base64_value (base64_char v) ≡ some v) × ((base64_char v == 0x3D) ≡ false)
unfolding base64_value base64_char
char_value v h = (ground arith, ground arith)

-- What the loop does with a character of each kind, and what `strip` does.
abbrev value_step : ℕ → ℕ → ℕ → List ℕ → List ℕ
value_step bits have v cs =
    let bits' = bit_or (u32 (bits <<< 6)) v in
    if leb 8 (have + 6)
    then bit_and (bits' >>> (have + 6 - 8)) 0xFF ∷ base64_loop bits' (have + 6 - 8) cs
    else base64_loop bits' (have + 6) cs

module _ (bits have c : ℕ) (cs : List ℕ) where
  loop_padding : (c == 0x3D) ≡ true → base64_loop bits have (c ∷ cs) ≡ []
  unfolding base64_loop
  loop_padding e = rw (base64_loop, e) refl

  loop_junk :
      (c == 0x3D) ≡ false
      → base64_value c ≡ none
      → base64_loop bits have (c ∷ cs) ≡ base64_loop bits have cs
  unfolding base64_loop
  loop_junk e j = rw (base64_loop, e, j) refl

  loop_value :
      (v : ℕ)
      → (c == 0x3D) ≡ false
      → base64_value c ≡ some v
      → base64_loop bits have (c ∷ cs) ≡ value_step bits have v cs
  unfolding base64_loop
  loop_value v e j = rw (base64_loop, e, j) refl

value_step_next :
    (bits have v : ℕ) (xs ys : List ℕ)
    → ((b k : ℕ) → base64_loop b k xs ≡ base64_loop b k ys)
    → value_step bits have v xs ≡ value_step bits have v ys
value_step_next bits have v xs ys h = elim (Bool-cases (leb 8 (have + 6))) [
  | inl full ↦
      rw full (ap (λ t. bit_and (bit_or (u32 (bits <<< 6)) v >>> (have + 6 - 8)) 0xFF ∷ t) (h _ _))
  | inr more ↦ rw more (h _ _)
]

loop-strip :
    (text : List ℕ) (bits have : ℕ)
    → base64_loop bits have (strip text) ≡ base64_loop bits have text
unfolding strip
loop-strip [] bits have = refl
loop-strip (c ∷ cs) bits have = elim (Bool-cases (c == 0x3D)) [
  | inl padding ↦
      rw (strip, padding) (loop_padding bits have c (strip cs) padding)
      ∙ sym (loop_padding bits have c cs padding)
  | inr other ↦ elim (Option-cases (base64_value c)) [
    | inl junk ↦
        rw (strip, other, junk) (loop-strip cs bits have)
        ∙ sym (loop_junk bits have c cs other junk)
    | inr (v, value) ↦
        rw (strip, other, value) (loop_value bits have c (strip cs) v other value)
        ∙ value_step_next bits have v (strip cs) cs (λ b k. loop-strip cs b k)
        ∙ sym (loop_value bits have c cs v other value)
  ]
]

-- The bits after one more value.
abbrev push : ℕ → ℕ → ℕ
push bits v = bit_or (u32 (bits <<< 6)) v

push_sum : (bits v : ℕ) → v < 64 → push bits v ≡ bits % 2 ^ 26 * 64 + v
push_sum bits v h =
    let shifted : u32 (bits <<< 6) ≡ bits % 2 ^ 26 * 2 ^ 6 = omega arith in
    ap (λ (t : ℕ). bit_or t v) shifted ∙ bit_or_fields 6 (bits % 2 ^ 26) v h

next_char :
    (bits have v : ℕ) (cs : List ℕ)
    → v < 64
    → base64_loop bits have (base64_char v ∷ cs) ≡ value_step bits have v cs
next_char bits have v cs h =
    loop_value bits have (base64_char v) cs v (char_value v h).1 (char_value v h).0

-- Two, three and four characters, and the bytes that they complete.
module _ (bits u v : ℕ) (cs : List ℕ) (hu : u < 64) (hv : v < 64) where
  two_chars :
      base64_loop bits 0 (base64_char u ∷ base64_char v ∷ cs)
      ≡ (u * 4 + v / 16) ∷ base64_loop (push (push bits u) v) 4 cs
  two_chars =
      next_char bits 0 u (base64_char v ∷ cs) hu
      ∙ next_char (push bits u) 6 v cs hv
      ∙ ap (λ t. t ∷ base64_loop (push (push bits u) v) 4 cs)
          (omega (
            arith,
            push_sum bits u hu,
            push_sum (push bits u) v hv,
            bit_and_mask 8 (push (push bits u) v / 2 ^ 4),
          ))

third_char :
    (bits v w : ℕ) (cs : List ℕ)
    → v < 64
    → w < 64
    → base64_loop (push bits v) 4 (base64_char w ∷ cs)
      ≡ (v % 16 * 16 + w / 4) ∷ base64_loop (push (push bits v) w) 2 cs
third_char bits v w cs hv hw =
    next_char (push bits v) 4 w cs hw
    ∙ ap (λ t. t ∷ base64_loop (push (push bits v) w) 2 cs)
        (omega (
          arith,
          push_sum bits v hv,
          push_sum (push bits v) w hw,
          bit_and_mask 8 (push (push bits v) w / 2 ^ 2),
        ))

fourth_char :
    (bits w x : ℕ) (cs : List ℕ)
    → w < 64
    → x < 64
    → base64_loop (push bits w) 2 (base64_char x ∷ cs)
      ≡ (w % 4 * 64 + x) ∷ base64_loop (push (push bits w) x) 0 cs
fourth_char bits w x cs hw hx =
    next_char (push bits w) 2 x cs hx
    ∙ ap (λ t. t ∷ base64_loop (push (push bits w) x) 0 cs)
        (omega (
          arith,
          push_sum bits w hw,
          push_sum (push bits w) x hx,
          bit_and_mask 8 (push (push bits w) x / 2 ^ 0),
        ))

loop-encode_base64 :
    (bs : List ℕ) (bits : ℕ) → All (λ b. b < 256) bs → base64_loop bits 0 (encode_base64 bs) ≡ bs
unfolding base64_loop encode_base64
loop-encode_base64 [] bits h = refl
loop-encode_base64 (a ∷ []) bits h =
    two_chars bits (a / 4) (a % 4 * 16) (0x3D ∷ 0x3D ∷ []) (omega arith) (omega arith)
    ∙ ap (λ t. t ∷ []) (omega arith)
loop-encode_base64 (a ∷ b ∷ []) bits h =
    let v : ℕ = a % 4 * 16 + b / 16 in
    two_chars bits (a / 4) v (base64_char (b % 16 * 4) ∷ 0x3D ∷ []) (omega arith) (omega arith)
    ∙ ap₂ ◌∷◌ (omega arith) (
        third_char (push bits (a / 4)) v (b % 16 * 4) (0x3D ∷ []) (omega arith) (omega arith)
        ∙ ap (λ t. t ∷ []) (omega arith))
loop-encode_base64 (a ∷ b ∷ c ∷ rest) bits h =
    let v : ℕ = a % 4 * 16 + b / 16 in
    let w : ℕ = b % 16 * 4 + c / 64 in
    two_chars bits (a / 4) v (base64_char w ∷ base64_char (c % 64) ∷ encode_base64 rest)
      (omega arith) (omega arith)
    ∙ ap₂ ◌∷◌ (omega arith) (
        third_char (push bits (a / 4)) v w (base64_char (c % 64) ∷ encode_base64 rest) (omega arith)
          (omega arith)
        ∙ ap₂ ◌∷◌ (omega arith) (
            fourth_char (push (push bits (a / 4)) v) w (c % 64) (encode_base64 rest) (omega arith)
              (omega arith)
            ∙ ap₂ ◌∷◌ (omega arith) (
                loop-encode_base64 rest (push (push (push (push bits (a / 4)) v) w) (c % 64))
                  h.1.1.1)))

-- A text that is the standard encoding of some bytes once all characters outside the alphabet are left
-- out (line breaks, spaces, junk) is decoded to those bytes, whatever their number.
pub decode_base64-encode_base64 :
    (text bs : List ℕ)
    → All (λ b. b < 256) bs
    → strip text ≡ encode_base64 bs
    → decode_base64 text ≡ bs
unfolding decode_base64
decode_base64-encode_base64 text bs h e =
    sym (loop-strip text 0 0) ∙ ap (base64_loop 0 0) e ∙ loop-encode_base64 bs 0 h
