-- ===== src/Imap/Flags.antt =====
-- `parseFlags` of src/imap/imap_parse.cpp, and the flags of src/core/message.h.
use imap2pst.Base.{
  ℕ, List, [], ◌∷◌, ◌++◌, Option, none, some, true, false, ◌==◌, if◌then◌else◌, bit_or,
}
use imap2pst.Base.Text.{ascii, same_text}
use imap2pst.Imap.Strings.{lower, is_white}
use imap2pst.Imap.Lines.{last_byte, without_last}

abbrev pub flag_seen : ℕ
flag_seen = 1

abbrev pub flag_answered : ℕ
flag_answered = 2

abbrev pub flag_flagged : ℕ
flag_flagged = 4

abbrev pub flag_deleted : ℕ
flag_deleted = 8

abbrev pub flag_draft : ℕ
flag_draft = 16

abbrev pub flag_recent : ℕ
flag_recent = 32

unfoldable pub push_word : List ℕ → List (List ℕ) → List (List ℕ)
push_word [] rest = rest
push_word (c ∷ cs) rest = (c ∷ cs) ∷ rest

-- The words that `is >> tok` gives one after the other, `word` being the start of the first.
unfoldable pub words : List ℕ → List ℕ → List (List ℕ)
words word [] = push_word word []
words word (c ∷ cs) = elim (is_white c) [
  | true ↦ push_word word (words [] cs)
  | false ↦ words (word ++ (c ∷ [])) cs
]

unfoldable pub drop_open : List ℕ → List ℕ
drop_open [] = []
drop_open (c ∷ cs) = elim (c == b'(') [ true ↦ drop_open cs | false ↦ c ∷ cs ]

-- The fuel is the length of the token or more.
unfoldable pub drop_close : List ℕ → List ℕ → List ℕ
drop_close [] tok = tok
drop_close (f ∷ fuel) tok = elim (last_byte tok == b')') [
  | true ↦ drop_close fuel (without_last tok)
  | false ↦ tok
]

-- The system flag that a name stands for.
unfoldable pub system_flag : List ℕ → Option ℕ
system_flag l =
    if same_text l (ascii "\\seen")
    then some flag_seen
    else if same_text l (ascii "\\answered")
    then some flag_answered
    else if same_text l (ascii "\\flagged")
    then some flag_flagged
    else if same_text l (ascii "\\deleted")
    then some flag_deleted
    else if same_text l (ascii "\\draft")
    then some flag_draft
    else if same_text l (ascii "\\recent")
    then some flag_recent
    else none

-- One token; `keywords` is none where the source is given a null pointer.
unfoldable pub put_flag : List ℕ → ℕ × Option (List (List ℕ)) → ℕ × Option (List (List ℕ))
put_flag [] s = s
put_flag (c ∷ cs) s = elim (system_flag (lower (c ∷ cs))) [
  | some flag ↦ (bit_or s.0 flag, s.1)
  | none ↦ (s.0, elim s.1 [ none ↦ none | some keywords ↦ some (keywords ++ ((c ∷ cs) ∷ [])) ])
]

unfoldable pub put_flags : List (List ℕ) → ℕ × Option (List (List ℕ)) → ℕ × Option (List (List ℕ))
put_flags [] s = s
put_flags (tok ∷ toks) s =
    let tok = drop_open tok in put_flags toks (put_flag (drop_close tok tok) s)

-- `parseFlags`
unfoldable pub parse_flags : List ℕ → Option (List (List ℕ)) → ℕ × Option (List (List ℕ))
parse_flags flag_list keywords = put_flags (words [] flag_list) (0, keywords)
