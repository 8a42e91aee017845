-- ===== src/Imap/Strings.antt =====
-- Strings of a response: `lower`, `skipSpace` and `readAstring` of src/imap/imap_parse.cpp, and `strtoul` of
-- the standard library.
pub mod Cursor
pub mod Quoted
pub mod Literal
pub mod Atom
pub mod Forward
use imap2pst.Base.{
  ℕ, zero, suc, ◌+◌, ◌-◌, ◌*◌, ◌^◌, min, List, [], ◌∷◌, Option, none, some, Bool, true, false, not,
  ◌&&◌, ◌||◌, ltb, leb, ◌==◌, if◌then◌else◌, length, get_or, take, drop, slice, map, u64,
}
use imap2pst.Base.Text.{find_byte}

-- The cursor's text from byte `i` on is `drop i s`; a byte past the end reads as the end of the text.
abbrev pub has_byte : ℕ → List ℕ → ℕ → Bool
has_byte c s i = ltb i (length s) && (get_or s i 0 == c)

unfoldable pub lower_byte : ℕ → ℕ
lower_byte c = if leb b'A' c && leb c b'Z' then c + 32 else c

-- `lower`
unfoldable pub lower : List ℕ → List ℕ
lower [] = []
lower (c ∷ cs) = lower_byte c ∷ lower cs

unfoldable pub is_white : ℕ → Bool
is_white c = (c == 32) || (leb 9 c && leb c 13)

unfoldable pub is_digit : ℕ → Bool
is_digit c = leb b'0' c && leb c b'9'

-- The digits of `strtoul` in base 10.
unfoldable pub digits_value : ℕ → List ℕ → ℕ
digits_value n [] = n
digits_value n (c ∷ cs) = elim (is_digit c) [
  | true ↦ digits_value (n * 10 + (c - 48)) cs
  | false ↦ n
]

-- A value past 64 bits becomes `ULONG_MAX`, and a minus sign negates in 64 bits.
unfoldable pub signed_value : Bool → ℕ → ℕ
signed_value negative n =
    if leb (2 ^ 64) n then 2 ^ 64 - 1 else if negative then u64 (2 ^ 64 - n) else n

unfoldable pub unsigned_text : List ℕ → ℕ
unsigned_text [] = 0
unsigned_text (c ∷ cs) =
    if c == b'-'
    then signed_value true (digits_value 0 cs)
    else signed_value false (digits_value 0 (if c == b'+' then cs else c ∷ cs))

-- `strtoul(s, nullptr, 10)`
unfoldable pub strtoul : List ℕ → ℕ
strtoul [] = 0
strtoul (c ∷ cs) = elim (is_white c) [ true ↦ strtoul cs | false ↦ unsigned_text (c ∷ cs) ]

unfoldable pub skip_in : List ℕ → ℕ → ℕ
skip_in [] i = i
skip_in (c ∷ cs) i = elim ((c == b' ') || (c == 9)) [ true ↦ skip_in cs (suc i) | false ↦ i ]

-- `skipSpace`
abbrev pub skip_space : List ℕ → ℕ → ℕ
skip_space s i = skip_in (drop i s) i

-- The loop over a quoted string: what it gives, and the place behind it.
unfoldable pub quoted_in : List ℕ → ℕ → List ℕ × ℕ
quoted_in [] i = ([], i)
quoted_in (c ∷ []) i = if c == b'"' then ([], suc i) else (c ∷ [], suc i)
quoted_in (c ∷ d ∷ cs) i = elim (c == b'"') [
  | true ↦ ([], suc i)
  | false ↦ elim (c == b'\\') [
    | true ↦ let rest = quoted_in cs (suc (suc i)) in (d ∷ rest.0, rest.1)
    | false ↦ let rest = quoted_in (d ∷ cs) (suc i) in (c ∷ rest.0, rest.1)
  ]
]

unfoldable pub ends_atom : ℕ → Bool
ends_atom c = (c == b' ') || ((c == 13) || ((c == 10) || ((c == b'(') || (c == b')'))))

-- The loop over an atom.
unfoldable pub atom_end : List ℕ → ℕ → ℕ
atom_end [] i = i
atom_end (c ∷ cs) i = elim (ends_atom c) [ true ↦ i | false ↦ atom_end cs (suc i) ]

-- Where the bytes of a literal begin, behind the brace at `close`.
unfoldable pub literal_start : List ℕ → ℕ → ℕ
literal_start s close =
    let start = suc close in
    let start = if has_byte 13 s start then suc start else start in
    if has_byte 10 s start then suc start else start

-- The sum of the place and the length wraps, as `std::size_t` does.
unfoldable pub read_literal : List ℕ → ℕ → Option (List ℕ) × ℕ
read_literal s i = elim (find_byte b'}' s i) [
  | none ↦ (none, i)
  | some close ↦
      let n = strtoul (drop (suc i) s) in
      let start = literal_start s close in
      let stop = u64 (start + n) in
      if ltb (length s) stop then (none, i) else (some (slice s start n), stop)
]

unfoldable pub read_atom : List ℕ → ℕ → Option (List ℕ) × ℕ
read_atom s i =
    let stop = atom_end (drop i s) i in
    if stop == i then (none, i) else (some (slice s i (stop - i)), stop)

-- `readAstring`: the string, or none where it returns false, and where the cursor is then.
unfoldable pub read_astring : List ℕ → ℕ → Option (List ℕ) × ℕ
read_astring s i =
    let i = skip_space s i in
    if leb (length s) i
    then (none, i)
    else if get_or s i 0 == b'"'
    then (let q = quoted_in (drop (suc i) s) (suc i) in (some q.0, q.1))
    else if get_or s i 0 == b'{'
    then read_literal s i
    else read_atom s i
