-- ===== src/Tests/Imap.antt =====
-- Runs of the parsers of src/imap/imap_parse.cpp.
use imap2pst.Base.{ℕ, ◌+◌, ◌^◌, ◌<◌, ◌≡◌, refl, arith, List, [], ◌∷◌, ◌++◌, true, some, length}
use imap2pst.Base.Text.{ascii}
use imap2pst.Imap.UidSet.{to_string, put_digits}
use imap2pst.Imap.Strings.{
  read_astring, read_literal, skip_in, literal_start, strtoul, unsigned_text, signed_value,
  digits_value, is_digit, is_white,
}
use imap2pst.Base.Text.{find_in}
use imap2pst.Imap.Strings.Quoted.{quoted, read_astring-quoted}
use imap2pst.Imap.Strings.Literal.{literal, read_astring-literal}
use imap2pst.Imap.Utf7.{decode_modified_utf7}
use imap2pst.Imap.Utf7.Escape.{escape, decode_modified_utf7-escape}
use imap2pst.Imap.Lines.{parsed}
use imap2pst.Imap.Fetch.{body_line}
use imap2pst.Base.Int.{pos}
use imap2pst.Imap.Strings.Forward.{is_tame}
use imap2pst.Imap.Fetch.Ends.{IsParsed, body_line-IsParsed}
use imap2pst.Imap.Fetch.{meta_line}
use imap2pst.Imap.Fetch.BodyLine.{line_start, fetch_line}
use imap2pst.Imap.Fetch.WholeLine.{body_of, body_line-fetch_line}

-- A body that looks like a literal and like the end of a line.
abbrev odd_bytes : List ℕ
odd_bytes = ascii "{3}" ++ (13 ∷ 10 ∷ ascii ")")

small_line : length (fetch_line 12 7 odd_bytes) < 2 ^ 64
unfolding fetch_line line_start to_string put_digits literal
small_line = omega arith

read_odd_line : body_line (fetch_line 12 7 odd_bytes) ≡ parsed (body_of 7 odd_bytes)
read_odd_line = body_line-fetch_line 12 7 odd_bytes (omega arith) (omega arith) small_line

small_literal : length (ascii "BODY[] " ++ (literal odd_bytes ++ ascii ")")) < 2 ^ 64
unfolding to_string put_digits literal
small_literal = omega arith

read_odd_literal :
    read_astring (ascii "BODY[] " ++ (literal odd_bytes ++ ascii ")")) 7
    ≡ (some odd_bytes, 7 + length (literal odd_bytes))
read_odd_literal =
    read_astring-literal (ascii "BODY[] ") odd_bytes (ascii ")") (omega arith) small_literal

read_quoted_name :
    read_astring (ascii "x " ++ (quoted (ascii "a\"b\\c") ++ ascii " y")) 2
    ≡ (some (ascii "a\"b\\c"), 2 + length (quoted (ascii "a\"b\\c")))
read_quoted_name = read_astring-quoted (ascii "x ") (ascii "a\"b\\c") (ascii " y")

decode_plain_name : decode_modified_utf7 (escape (ascii "R&D -&-")) ≡ ascii "R&D -&-"
decode_plain_name = decode_modified_utf7-escape (ascii "R&D -&-")

-- The length of this literal and the place of its bytes make 2 ^ 64: the cursor stays where it was.
literal_that_stays : read_astring (ascii "{18446744073709551594}") 0 ≡ (some [], 0)
unfolding read_astring read_literal skip_in literal_start strtoul unsigned_text signed_value
    digits_value is_digit is_white find_in
literal_that_stays = refl

-- A line with a date, whose literal is longer than the line.
abbrev broken_line : List ℕ
broken_line =
    ascii
      "* 7 FETCH (UID 12 FLAGS (\\Seen) INTERNALDATE \"17-Jul-1996 02:44:25 -0700\" BODY[] {99} x"

broken_line_tame : is_tame broken_line ≡ true
unfolding is_tame strtoul unsigned_text signed_value digits_value is_digit is_white
broken_line_tame = refl

broken_line_read :
    IsParsed (body_line broken_line) × IsParsed (meta_line (λ date. pos 0) broken_line)
broken_line_read = body_line-IsParsed broken_line (omega arith) broken_line_tame (λ date. pos 0)
