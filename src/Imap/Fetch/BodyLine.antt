-- ===== src/Imap/Fetch/BodyLine.antt =====
-- A FETCH line with a UID and a body under `parseFetchBodies` of src/imap/imap_parse.cpp.
use imap2pst.Base.{
  ℕ, suc, ◌+◌, ◌<◌, ◌≡◌, refl, ap, ◌∙◌, arith, List, [], ◌∷◌, ◌++◌, append_assoc, All, some, true,
  false, ◌==◌, length, length-append,
}
use imap2pst.Base.Text.{ascii, same_text, is_prefix, find_text_in, find_text}
use imap2pst.Imap.UidSet.{to_string}
use imap2pst.Imap.Strings.{is_digit, ends_atom, lower_byte, lower, read_astring}
use imap2pst.Imap.Strings.Literal.{IsDigit, literal, to_string-IsDigit, some_digit}
use imap2pst.Imap.Strings.Atom.{IsAtomByte, IsFirst, read_as_atom}
use imap2pst.Imap.Fetch.{FetchedBody, uid_of, body_item, fetch_start}

-- `* seq FETCH ` and what follows it.
unfoldable pub line_start : ℕ → List ℕ
line_start seq = b'*' ∷ b' ' ∷ (to_string seq ++ ascii " FETCH ")

unfoldable pub fetch_line : ℕ → ℕ → List ℕ → List ℕ
fetch_line seq uid bytes =
    line_start seq
    ++ (b'('
        ∷ (ascii "UID"
            ++ (b' '
                ∷ (to_string uid
                    ++ (b' ' ∷ (ascii "BODY[]" ++ (b' ' ∷ (literal bytes ++ (b')' ∷ [])))))))))

digit-IsFirst : (c : ℕ) → is_digit c ≡ true → IsFirst c
unfolding is_digit ends_atom
digit-IsFirst c h = record {
  atom = ground arith;
  quote = ground arith;
  brace = ground arith;
  white = ground arith;
}

digits_atom : (xs : List ℕ) → All IsDigit xs → All IsAtomByte xs
digits_atom [] h = tt
digits_atom (x ∷ xs) h = ((digit-IsFirst x h.0).atom, digits_atom xs h.1)

-- A number is an atom.
pub read_number_atom :
    (before xs t : List ℕ)
    → All IsDigit xs
    → 0 < length xs
    → read_astring (before ++ (xs ++ (b' ' ∷ t))) (length before)
      ≡ (some xs, length before + length xs)
unfolding ends_atom
read_number_atom before [] t h some_byte = absurd (omega arith)
read_number_atom before (x ∷ xs) t h some_byte =
    read_as_atom before xs t x b' ' (digit-IsFirst x h.0) (digits_atom xs h.1) refl

module _ (line : List ℕ) (i j : ℕ) (t : List ℕ) (s : FetchedBody)
    (e : read_astring line i ≡ (some t, j)) where
  pub uid_item :
      body_item line (lower (ascii "UID")) i s
      ≡ some (record s { uid = uid_of t; have_uid = true }, j)
  unfolding body_item lower lower_byte same_text
  uid_item = rw (body_item, e) refl

  pub bytes_item :
      body_item line (lower (ascii "BODY[]")) i s
      ≡ some (record s { rfc822 = t; have_body = true }, j)
  unfolding body_item lower lower_byte same_text is_prefix
  bytes_item = rw (body_item, e) refl

-- Where the items begin.
digit_not :
    (x : ℕ) → is_digit x ≡ true → ((32 == lower_byte x) ≡ false) × ((b'f' == lower_byte x) ≡ false)
unfolding is_digit lower_byte
digit_not x h = (ground arith, ground arith)

find_digits :
    (xs rest : List ℕ) (i : ℕ)
    → All IsDigit xs
    → find_text_in (ascii " fetch ") (lower (xs ++ rest)) i
      ≡ find_text_in (ascii " fetch ") (lower rest) (i + length xs)
unfolding find_text_in lower is_prefix
find_digits [] rest i h = ap (find_text_in (ascii " fetch ") (lower rest)) (omega arith)
find_digits (x ∷ xs) rest i h =
    rw (find_text_in, is_prefix, (digit_not x h.0).0)
      (find_digits xs rest (suc i) h.1
        ∙ ap (find_text_in (ascii " fetch ") (lower rest)) (omega arith))

find_fetch :
    (xs t : List ℕ)
    → All IsDigit xs
    → 0 < length xs
    → find_text (ascii " fetch ") (lower (b'*' ∷ b' ' ∷ (xs ++ (ascii " FETCH " ++ t))))
      ≡ some (2 + length xs)
unfolding find_text_in lower lower_byte is_prefix
find_fetch [] t h some_byte = absurd (omega arith)
find_fetch (x ∷ xs) t h some_byte =
    rw (second x (lower (xs ++ (ascii " FETCH " ++ t))) h.0)
      (find_digits (x ∷ xs) (ascii " FETCH " ++ t) 2 h)
  where
    second :
        (x : ℕ) (ys : List ℕ)
        → is_digit x ≡ true
        → is_prefix (ascii " fetch ") (32 ∷ lower_byte x ∷ ys) ≡ false
    second x ys h = rw (is_prefix, (digit_not x h).1) refl

pub start_of_items :
    (seq : ℕ) (t : List ℕ) → fetch_start (line_start seq ++ t) ≡ some (length (line_start seq))
unfolding fetch_start line_start
start_of_items seq t =
    let xs : List ℕ = to_string seq in
    let found : find_text (ascii " fetch ") (lower (line_start seq ++ t)) ≡ some (2 + length xs) =
      ap (λ u. find_text (ascii " fetch ") (lower (b'*' ∷ b' ' ∷ u)))
        (append_assoc xs (ascii " FETCH ") t)
      ∙ find_fetch xs t (to_string-IsDigit seq) (some_digit seq) in
    rw found (ap some (omega (arith, length-append xs (ascii " FETCH "))))
