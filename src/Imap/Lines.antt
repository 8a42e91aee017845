-- ===== src/Imap/Lines.antt =====
-- `splitLines` of src/imap/imap_parse.cpp. A call of `substr` past the end throws `std::out_of_range`, and a
-- loop that has not ended within its fuel is `unfinished`, which stands for no outcome of the source.
use imap2pst.Base.{
  ℕ, zero, suc, ◌+◌, ◌-◌, List, [], ◌∷◌, ◌++◌, Option, none, some, Bool, true, false, ◌&&◌, ltb,
  ◌==◌, if◌then◌else◌, length, slice, u64,
}
use imap2pst.Base.Text.{find_byte, rfind_byte, or_end}
use imap2pst.Imap.Strings.{is_digit, strtoul}

pub data Parsed {ℓ} (A : Type ℓ) : Type ℓ where
  parsed : A → Parsed A
  out_of_range unfinished : Parsed A

abbrev pub then_parse {ℓ κ} : {A : Type ℓ} {B : Type κ} → Parsed A → (A → Parsed B) → Parsed B
then_parse (parsed a) f = f a
then_parse out_of_range f = out_of_range
then_parse unfinished f = unfinished

unfoldable pub last_byte : List ℕ → ℕ
last_byte [] = 0
last_byte (c ∷ []) = c
last_byte (c ∷ d ∷ cs) = last_byte (d ∷ cs)

unfoldable pub without_last : List ℕ → List ℕ
without_last [] = []
without_last (c ∷ []) = []
without_last (c ∷ d ∷ cs) = c ∷ without_last (d ∷ cs)

-- `if (!line.empty() && line.back() == '\r') line.pop_back()`
unfoldable pub strip_cr : List ℕ → List ℕ
strip_cr line = if last_byte line == 13 then without_last line else line

unfoldable pub all_digits : List ℕ → Bool
all_digits [] = true
all_digits (c ∷ cs) = is_digit c && all_digits cs

unfoldable pub digits_length : List ℕ → Option ℕ
digits_length [] = none
digits_length (c ∷ cs) = if all_digits (c ∷ cs) then some (strtoul (c ∷ cs)) else none

-- The length of the literal that a line announces at its end, where it does.
unfoldable pub announced : List ℕ → Option ℕ
announced line =
    if last_byte line == b'}'
    then elim (rfind_byte b'{' line) [
      | none ↦ none
      | some brace ↦ digits_length (slice line (suc brace) (length line - brace - 2))
    ]
    else none

-- The inner loop: the line with its literals, and where the next line begins.
unfoldable pub take_literals : ℕ → List ℕ → List ℕ → ℕ → Parsed (List ℕ × ℕ)
take_literals zero response line i = unfinished
take_literals (suc fuel) response line i = elim (announced line) [
  | none ↦ parsed (line, i)
  | some n ↦
      let stop = u64 (i + n) in
      elim (ltb (length response) stop) [
        | true ↦ parsed (line, i)
        | false ↦ elim (ltb (length response) i) [
          | true ↦ out_of_range
          | false ↦
              let rest_eol = or_end (find_byte 10 response stop) response in
              let rest = strip_cr (slice response stop (rest_eol - stop)) in
              take_literals fuel response (line ++ (13 ∷ 10 ∷ slice response i n) ++ rest)
                (suc rest_eol)
        ]
      ]
]

-- The outer loop from byte `i` on. One amount of fuel serves both loops.
unfoldable pub lines_from : ℕ → List ℕ → ℕ → Parsed (List (List ℕ))
lines_from zero response i = elim (ltb i (length response)) [
  | false ↦ parsed []
  | true ↦ unfinished
]
lines_from (suc fuel) response i = elim (ltb i (length response)) [
  | false ↦ parsed []
  | true ↦
      let eol = or_end (find_byte 10 response i) response in
      then_parse
        (take_literals (suc fuel) response (strip_cr (slice response i (eol - i))) (suc eol))
        λ r. then_parse (lines_from fuel response r.1) λ lines. parsed (r.0 ∷ lines)
]

-- `splitLines`
unfoldable pub split_lines : List ℕ → Parsed (List (List ℕ))
split_lines response = lines_from (suc (length response)) response 0
