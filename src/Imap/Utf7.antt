-- ===== src/Imap/Utf7.antt =====
-- `decodeModifiedUtf7` of src/imap/imap_parse.cpp.
pub mod Escape
use imap2pst.Base.{
  ℕ, zero, suc, ◌+◌, ◌-◌, List, [], ◌∷◌, ◌++◌, Option, none, some, Bool, true, false, not, ◌&&◌,
  ltb, leb, ◌==◌, if◌then◌else◌, length, take, drop, bit_and, bit_or, u8, u32, ◌<<<◌, ◌>>>◌,
}
use imap2pst.Base.Text.{find_in, or_end}

unfoldable pub modified_base64_value : ℕ → Option ℕ
modified_base64_value c =
    if leb b'A' c && leb c b'Z'
    then some (c - 65)
    else if leb b'a' c && leb c b'z'
    then some (c - 97 + 26)
    else if leb b'0' c && leb c b'9'
    then some (c - 48 + 52)
    else if c == b'+'
    then some 62
    else if c == b','
    then some 63
    else none

-- `appendUtf8`: the bytes that it appends.
unfoldable pub utf8_bytes : ℕ → List ℕ
utf8_bytes cp =
    if ltb cp 0x80
    then cp ∷ []
    else if ltb cp 0x800
    then u8 (bit_or 0xC0 (cp >>> 6)) ∷ u8 (bit_or 0x80 (bit_and cp 0x3F)) ∷ []
    else if ltb cp 0x10000
    then u8 (bit_or 0xE0 (cp >>> 12))
      ∷ u8 (bit_or 0x80 (bit_and (cp >>> 6) 0x3F))
      ∷ u8 (bit_or 0x80 (bit_and cp 0x3F))
      ∷ []
    else u8 (bit_or 0xF0 (cp >>> 18))
      ∷ u8 (bit_or 0x80 (bit_and (cp >>> 12) 0x3F))
      ∷ u8 (bit_or 0x80 (bit_and (cp >>> 6) 0x3F))
      ∷ u8 (bit_or 0x80 (bit_and cp 0x3F))
      ∷ []

-- What a unit of UTF-16 appends, with a high surrogate that may be pending (0 when none), and what is pending
-- afterwards.
unfoldable pub put_unit : ℕ → ℕ → List ℕ × ℕ
put_unit high unit =
    if leb 0xD800 unit && leb unit 0xDBFF
    then ([], unit)
    else if leb 0xDC00 unit && (leb unit 0xDFFF && not (high == 0))
    then (utf8_bytes (0x10000 + ((high - 0xD800) <<< 10) + (unit - 0xDC00)), 0)
    else (utf8_bytes unit, 0)

-- The inner loop over a shift sequence: whether it is bad, and what it appends up to there.
unfoldable pub shifted : ℕ → ℕ → ℕ → List ℕ → Bool × List ℕ
shifted bits nbits high [] = (false, [])
shifted bits nbits high (c ∷ cs) = elim (modified_base64_value c) [
  | none ↦ (true, [])
  | some v ↦
      let bits = bit_or (u32 (bits <<< 6)) v in
      let nbits = nbits + 6 in
      let full = leb 16 nbits in
      let p = if full then put_unit high (bit_and (bits >>> (nbits - 16)) 0xFFFF) else ([], high) in
      let rest = shifted bits (if full then nbits - 16 else nbits) p.1 cs in (rest.0, p.0 ++ rest.1)
]

-- A shift sequence behind its `&`: what it appends, and what is left of the name. `find` is where its `-` is.
unfoldable pub shift_sequence : List ℕ → Option ℕ → List ℕ × List ℕ
shift_sequence name find =
    let end = or_end find name in
    let run = take end name in
    let hyphen : List ℕ = elim find [ none ↦ [] | some i ↦ b'-' ∷ [] ] in
    let d = shifted 0 0 0 run in
    (if d.0 then d.1 ++ (b'&' ∷ run ++ hyphen) else d.1, drop (suc end) name)

-- The outer loop, over the bytes that are left; the fuel is their number.
unfoldable pub utf7_loop : ℕ → List ℕ → List ℕ
utf7_loop zero name = []
utf7_loop (suc fuel) [] = []
utf7_loop (suc fuel) (c ∷ []) =
    if c == b'&' then (let s = shift_sequence [] none in s.0) else c ∷ []
utf7_loop (suc fuel) (c ∷ d ∷ cs) = elim (c == b'&') [
  | false ↦ c ∷ utf7_loop fuel (d ∷ cs)
  | true ↦ elim (d == b'-') [
    | true ↦ b'&' ∷ utf7_loop fuel cs
    | false ↦ let s = shift_sequence (d ∷ cs) (find_in b'-' (d ∷ cs) 0) in s.0 ++ utf7_loop fuel s.1
  ]
]

-- `decodeModifiedUtf7`
unfoldable pub decode_modified_utf7 : List ℕ → List ℕ
decode_modified_utf7 name = utf7_loop (length name) name
