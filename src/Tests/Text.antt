-- ===== src/Tests/Text.antt =====
-- Runs of the text routines of src/core/message.cpp, src/imap/imap_parse.cpp and
-- src/mime/encodings.cpp.
use imap2pst.Base.{false, ℕ, ◌<◌, ◌^◌, ◌≡◌, refl, arith, List, [], ◌∷◌, true, All}
use imap2pst.Core.Message.{FolderInfo, path}
use imap2pst.Core.Message.Parts.{IsPart, join, not_empty, path-join}
use imap2pst.Imap.UidSet.{uid_set, to_string, put_digits, run, put_comma, put_last, put_runs}
use imap2pst.Imap.UidSet.Reader.{read_set}
use imap2pst.Imap.UidSet.Runs.{IsUid}
use imap2pst.Imap.UidSet.Reads.{read_set-uid_set}
use imap2pst.Mime.Encodings.{decode_quoted_printable, decode_base64, base64_value}
use imap2pst.Mime.Encodings.QuotedPrintable.{
  Token, literal, escaped, soft_break, write_tokens, tokens_bytes, IsToken, is_literal, is_escaped,
  is_soft_break, decode_quoted_printable-write_tokens,
}
use imap2pst.Mime.Encodings.Base64.{strip, encode_base64, base64_char, decode_base64-encode_base64}

-- "5:7,10"
uid_set_test : uid_set (5 ∷ 6 ∷ 7 ∷ 10 ∷ []) ≡ 0x35 ∷ 0x3A ∷ 0x37 ∷ 0x2C ∷ 0x31 ∷ 0x30 ∷ []
unfolding uid_set to_string put_digits run put_comma put_last put_runs
uid_set_test = refl

read_four_uids : read_set (uid_set (5 ∷ 6 ∷ 7 ∷ 10 ∷ [])) ≡ 5 ∷ 6 ∷ 7 ∷ 10 ∷ []
read_four_uids = read_set-uid_set (5 ∷ 6 ∷ 7 ∷ 10 ∷ []) four_uids
  where
    uid : (u : ℕ) → 0 < u → u < 2 ^ 32 → IsUid u
    uid u p s = record { positive = p; small = s }

    four_uids : All IsUid (5 ∷ 6 ∷ 7 ∷ 10 ∷ [])
    four_uids = (
      uid 5 (omega arith) (omega arith),
      (
        uid 6 (omega arith) (omega arith),
        (uid 7 (omega arith) (omega arith), (uid 10 (omega arith) (omega arith), tt)),
      ),
    )

-- "A_=3D=e9=\r\n"
abbrev quoted_tokens : List Token
quoted_tokens =
    literal 0x41
    ∷ literal 0x5F
    ∷ escaped (record { small = false; value = 3 }) (record { small = false; value = 13 })
    ∷ escaped (record { small = true; value = 14 }) (record { small = true; value = 9 })
    ∷ soft_break
    ∷ []

quoted_tokens-IsToken : All IsToken quoted_tokens
quoted_tokens-IsToken = (
  is_literal (omega arith),
  (
    is_literal (omega arith),
    (
      is_escaped (omega arith) (omega arith),
      (is_escaped (omega arith) (omega arith), (is_soft_break, tt)),
    ),
  ),
)

decode_tokens :
    decode_quoted_printable (write_tokens quoted_tokens) true ≡ tokens_bytes true quoted_tokens
decode_tokens = decode_quoted_printable-write_tokens quoted_tokens true quoted_tokens-IsToken

-- "AQ\nL/": the bytes 1, 2, 255 with a line break among them
abbrev broken_line : List ℕ
broken_line = 0x41 ∷ 0x51 ∷ 0x0A ∷ 0x4C ∷ 0x2F ∷ []

stripped : strip broken_line ≡ encode_base64 (1 ∷ 2 ∷ 255 ∷ [])
unfolding strip encode_base64 base64_char base64_value
stripped = refl

decode_broken_line : decode_base64 broken_line ≡ 1 ∷ 2 ∷ 255 ∷ []
decode_broken_line =
    decode_base64-encode_base64 broken_line (1 ∷ 2 ∷ 255 ∷ [])
      (omega arith, (omega arith, (omega arith, tt))) stripped

-- "INBOX//A" of the parts "INBOX", "" and "A"
abbrev inbox : FolderInfo
inbox = record {
  full_name = 0x49 ∷ 0x4E ∷ 0x2F ∷ 0x2F ∷ 0x41 ∷ [];
  raw_name = 0x49 ∷ 0x4E ∷ 0x2F ∷ 0x2F ∷ 0x41 ∷ [];
  delimiter = 0x2F;
  selectable = true;
}

in_parts : All (IsPart 0x2F) ((0x49 ∷ 0x4E ∷ []) ∷ [] ∷ (0x41 ∷ []) ∷ [])
in_parts = ((omega arith, (omega arith, tt)), (tt, ((omega arith, tt), tt)))

joined : inbox.full_name ≡ join 0x2F ((0x49 ∷ 0x4E ∷ []) ∷ [] ∷ (0x41 ∷ []) ∷ [])
unfolding join
joined = refl

two_parts :
    (path inbox ≡ not_empty ((0x49 ∷ 0x4E ∷ []) ∷ [] ∷ (0x41 ∷ []) ∷ []))
    × (path (record inbox { delimiter = 0 }) ≡ not_empty (inbox.full_name ∷ []))
two_parts =
    path-join inbox ((0x49 ∷ 0x4E ∷ []) ∷ [] ∷ (0x41 ∷ []) ∷ []) (omega arith) in_parts joined
