-- ===== src/Imap/Folders.antt =====
-- `parseListResponse` of src/imap/imap_parse.cpp.
use imap2pst.Base.{
  ℕ, suc, ◌+◌, ◌-◌, List, [], ◌∷◌, Option, none, some, Bool, true, false, not, ◌||◌, ltb, ◌==◌,
  if◌then◌else◌, length, get_or, slice,
}
use imap2pst.Base.Text.{ascii, same_text, find_byte, find_text}
use imap2pst.Core.Message.{FolderInfo}
use imap2pst.Imap.Strings.{lower, skip_space, read_astring, has_byte}
use imap2pst.Imap.Lines.{Parsed, parsed, then_parse, split_lines}
use imap2pst.Imap.Utf7.{decode_modified_utf7}

unfoldable pub is_missing : Option ℕ → Bool
is_missing none = true
is_missing (some i) = false

-- What `NIL` or an empty text is, and else the first byte.
unfoldable pub delimiter_of : List ℕ → ℕ
delimiter_of delim = if same_text (lower delim) (ascii "nil") then 0 else get_or delim 0 0

unfoldable pub folder_of : Bool → List ℕ → List ℕ → Option FolderInfo
folder_of selectable delim [] = none
folder_of selectable delim (c ∷ cs) = some (record {
  full_name = decode_modified_utf7 (c ∷ cs);
  raw_name = c ∷ cs;
  delimiter = delimiter_of delim;
  selectable = selectable;
})

-- The line behind its attributes, from byte `i` on.
unfoldable pub list_names : List ℕ → Bool → ℕ → Option FolderInfo
list_names line selectable i =
    let d = read_astring line i in
    elim d.0 [
      | none ↦ none
      | some delim ↦ elim (read_astring line d.1).0 [
        | none ↦ none
        | some raw ↦ folder_of selectable delim raw
      ]
    ]

-- The body of the loop: a folder, or none where it goes on to the next line.
unfoldable pub list_line : List ℕ → Option FolderInfo
list_line line =
    if ltb (length line) 2 || not (get_or line 0 0 == b'*')
    then none
    else (let i = skip_space line 1 in
        if not (same_text (lower (slice line i 4)) (ascii "list"))
        then none
        else (let i = skip_space line (i + 4) in
            if not (has_byte b'(' line i) then none else elim (find_byte b')' line i) [
              | none ↦ none
              | some close ↦
                  let attrs = lower (slice line i (close - i + 1)) in
                  list_names line (is_missing (find_text (ascii "\\noselect") attrs)) (suc close)
            ]))

unfoldable pub list_lines : List (List ℕ) → List FolderInfo
list_lines [] = []
list_lines (l ∷ ls) = elim (list_line l) [ none ↦ list_lines ls | some f ↦ f ∷ list_lines ls ]

-- `parseListResponse`
unfoldable pub parse_list_response : List ℕ → Parsed (List FolderInfo)
parse_list_response response = then_parse (split_lines response) λ lines. parsed (list_lines lines)
