-- ===== src/Mime/Encodings.antt =====
-- The decoders of src/mime/encodings.cpp. Text is a list of bytes.
pub mod QuotedPrintable
pub mod Base64
use imap2pst.Base.{
  ℕ, zero, suc, ◌+◌, ◌-◌, List, [], ◌∷◌, ◌++◌, Bool, true, false, ◌&&◌, Option, none, some, ltb,
  leb, ◌==◌, if◌then◌else◌, length, map, bit_and, bit_or, u8, u32, ◌<<<◌, ◌>>>◌,
}
use imap2pst.Base.Text.{same_text}

-- `base64Value`; no value stands for its -1.
unfoldable pub base64_value : ℕ → Option ℕ
base64_value c =
    if leb 0x41 c && leb c 0x5A
    then some (c - 0x41)
    else if leb 0x61 c && leb c 0x7A
    then some (c - 0x61 + 26)
    else if leb 0x30 c && leb c 0x39
    then some (c - 0x30 + 52)
    else if c == 0x2B
    then some 62
    else if c == 0x2F
    then some 63
    else none

-- `hexValue`
unfoldable pub hex_value : ℕ → Option ℕ
hex_value c =
    if leb 0x30 c && leb c 0x39
    then some (c - 0x30)
    else if leb 0x61 c && leb c 0x66
    then some (c - 0x61 + 10)
    else if leb 0x41 c && leb c 0x46
    then some (c - 0x41 + 10)
    else none

-- `std::tolower` in the C locale, and `lower`
unfoldable pub to_lower : ℕ → ℕ
to_lower c = if leb 0x41 c && leb c 0x5A then c + 32 else c

unfoldable pub lower : List ℕ → List ℕ
lower s = map to_lower s

-- The loop of `decodeBase64`: `bits` and `have`, and the characters that are left.
unfoldable pub base64_loop : ℕ → ℕ → List ℕ → List ℕ
base64_loop bits have [] = []
base64_loop bits have (c ∷ cs) = if c == 0x3D then [] else elim (base64_value c) [
  | none ↦ base64_loop bits have cs
  | some v ↦
      let bits' = bit_or (u32 (bits <<< 6)) v in
      if leb 8 (have + 6)
      then bit_and (bits' >>> (have + 6 - 8)) 0xFF ∷ base64_loop bits' (have + 6 - 8) cs
      else base64_loop bits' (have + 6) cs
]

-- `decodeBase64`
unfoldable pub decode_base64 : List ℕ → List ℕ
decode_base64 input = base64_loop 0 0 input

-- What stands behind a `=`: the bytes that it gives, and the text behind it. At the end of the text the
-- loop of the source breaks, which leaves no text either.
unfoldable pub after_soft_return : List ℕ → List ℕ
after_soft_return [] = []
after_soft_return (c ∷ cs) = if c == 0x0A then cs else c ∷ cs

unfoldable pub hex_pair : ℕ → ℕ → List ℕ → List ℕ × List ℕ
hex_pair a b rest = elim (hex_value a) [
  | none ↦ (0x3D ∷ [], a ∷ b ∷ rest)
  | some hi ↦ elim (hex_value b) [
    | none ↦ (0x3D ∷ [], a ∷ b ∷ rest)
    | some lo ↦ (u8 (bit_or (hi <<< 4) lo) ∷ [], rest)
  ]
]

unfoldable pub escape : List ℕ → List ℕ × List ℕ
escape [] = ([], [])
escape (a ∷ []) =
    if a == 0x0A then ([], []) else if a == 0x0D then ([], []) else (0x3D ∷ [], a ∷ [])
escape (a ∷ b ∷ rest) =
    if a == 0x0A
    then ([], b ∷ rest)
    else if a == 0x0D
    then ([], after_soft_return (b ∷ rest))
    else hex_pair a b rest

-- The loop of `decodeQuotedPrintable`; the fuel is the length of the text.
unfoldable pub quoted_loop : ℕ → Bool → List ℕ → List ℕ
quoted_loop zero underscore_is_space text = []
quoted_loop (suc fuel) underscore_is_space [] = []
quoted_loop (suc fuel) underscore_is_space (c ∷ cs) = elim (c == 0x3D) [
  | true ↦ (let (bytes, rest) = escape cs in bytes ++ quoted_loop fuel underscore_is_space rest)
  | false ↦
      (if c == 0x5F && underscore_is_space then 0x20 else c)
      ∷ quoted_loop fuel underscore_is_space cs
]

-- `decodeQuotedPrintable`
unfoldable pub decode_quoted_printable : List ℕ → Bool → List ℕ
decode_quoted_printable input underscore_is_space =
    quoted_loop (length input) underscore_is_space input

-- "base64" and "quoted-printable"
abbrev pub base64_name : List ℕ
base64_name = 0x62 ∷ 0x61 ∷ 0x73 ∷ 0x65 ∷ 0x36 ∷ 0x34 ∷ []

abbrev pub quoted_printable_name : List ℕ
quoted_printable_name =
    0x71 ∷ 0x75 ∷ 0x6F ∷ 0x74 ∷ 0x65 ∷ 0x64 ∷ 0x2D ∷ 0x70 ∷ 0x72 ∷ 0x69 ∷ 0x6E ∷ 0x74 ∷ 0x61 ∷ 0x62
    ∷ 0x6C ∷ 0x65 ∷ []

-- `decodeBody`
unfoldable pub decode_body : List ℕ → List ℕ → List ℕ
decode_body body encoding =
    let e = lower encoding in
    if same_text e base64_name
    then decode_base64 body
    else if same_text e quoted_printable_name
    then decode_quoted_printable body false
    else body
