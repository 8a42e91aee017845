-- ===== src/Imap/Fetch.antt =====
-- `parseFetchBodies` and `parseFetchResponse` of src/imap/imap_parse.cpp. `parseInternalDate`, which reads a date by
-- `sscanf` and `timegm`, is a parameter of the second.
pub mod Items
pub mod BodyLine
pub mod BodyRun
pub mod WholeLine
pub mod Ends
use imap2pst.Base.{
  ℕ, zero, suc, ◌+◌, ◌-◌, List, [], ◌∷◌, ◌++◌, Option, none, some, Bool, true, false, not, ◌&&◌,
  ◌||◌, ltb, leb, ◌==◌, if◌then◌else◌, length, get_or, slice, u32,
}
use imap2pst.Base.Int.{ℤ, pos}
use imap2pst.Base.Text.{ascii, same_text, is_prefix, find_byte, find_text}
use imap2pst.Imap.Strings.{lower, skip_space, read_astring, strtoul}
use imap2pst.Imap.Lines.{Parsed, parsed, unfinished, then_parse, split_lines}
use imap2pst.Imap.Flags.{parse_flags}

-- The loop over the items of a line, which both functions have: `handle` is what they do with a key, and none
-- where they leave the loop.
module _ {S : Type 0} (handle : List ℕ → List ℕ → ℕ → S → Option (S × ℕ)) (line : List ℕ) where
  -- The body of the loop behind the spaces, with the rest of the loop.
  unfoldable pub fetch_item : (ℕ → S → Parsed S) → ℕ → S → Parsed S
  fetch_item rest i s = elim (leb (length line) i) [
    | true ↦ parsed s
    | false ↦ elim (get_or line i 0 == b'(' || get_or line i 0 == b')') [
      | true ↦ rest (suc i) s
      | false ↦
          let k = read_astring line i in
          elim k.0 [
            | none ↦ parsed s
            | some key ↦ elim (handle line (lower key) k.1 s) [
              | none ↦ parsed s
              | some next ↦ rest next.1 next.0
            ]
          ]
    ]
  ]

  unfoldable pub fetch_items : ℕ → ℕ → S → Parsed S
  fetch_items zero i s = if ltb i (length line) then unfinished else parsed s
  fetch_items (suc fuel) i s = fetch_item (fetch_items fuel) (skip_space line i) s

-- Where the items of a line begin, if it is an untagged FETCH line.
unfoldable pub fetch_start : List ℕ → Option ℕ
fetch_start line =
    if get_or line 0 0 == b'*'
    then elim (find_text (ascii " fetch ") (lower line)) [
      | none ↦ none
      | some fetch ↦ some (fetch + 7)
    ]
    else none

-- `FetchedBody`, with `have_uid` and `have_body`
pub record FetchedBody : Type 0 where
  pub uid : ℕ
  pub rfc822 : List ℕ
  pub have_uid : Bool
  pub have_body : Bool

abbrev pub no_body : FetchedBody
no_body = record { uid = 0; rfc822 = []; have_uid = false; have_body = false }

abbrev pub uid_of : List ℕ → ℕ
uid_of v = u32 (strtoul v)

-- One key of a line of bodies.
unfoldable pub body_item : List ℕ → List ℕ → ℕ → FetchedBody → Option (FetchedBody × ℕ)
body_item line k i s =
    let v = read_astring line i in
    if same_text k (ascii "uid")
    then some (elim v.0 [ none ↦ s | some t ↦ record s { uid = uid_of t; have_uid = true } ], v.1)
    else if is_prefix (ascii "body[") k || same_text k (ascii "rfc822")
    then some (elim v.0 [ none ↦ s | some t ↦ record s { rfc822 = t; have_body = true } ], v.1)
    else elim v.0 [ none ↦ none | some t ↦ some (s, v.1) ]

unfoldable pub body_line : List ℕ → Parsed FetchedBody
body_line line = elim (fetch_start line) [
  | none ↦ parsed no_body
  | some i ↦ fetch_items body_item line (length line) i no_body
]

unfoldable pub push_body : FetchedBody → List (ℕ × List ℕ) → List (ℕ × List ℕ)
push_body s rest = if s.have_uid && s.have_body then (s.uid, s.rfc822) ∷ rest else rest

unfoldable pub body_lines : List (List ℕ) → Parsed (List (ℕ × List ℕ))
body_lines [] = parsed []
body_lines (l ∷ ls) =
    then_parse (body_line l) λ s. then_parse (body_lines ls) λ rest. parsed (push_body s rest)

-- `parseFetchBodies`: the UIDs and bodies.
unfoldable pub parse_fetch_bodies : List ℕ → Parsed (List (ℕ × List ℕ))
parse_fetch_bodies response = then_parse (split_lines response) body_lines

-- `MessageMeta`, with `have_uid`
pub record MessageMeta : Type 0 where
  pub uid : ℕ
  pub flags : ℕ
  pub keywords : List (List ℕ)
  pub internal_date : ℤ
  pub size : ℕ
  pub have_uid : Bool

abbrev pub no_meta : MessageMeta
no_meta = record {
  uid = 0;
  flags = 0;
  keywords = [];
  internal_date = pos 0;
  size = 0;
  have_uid = false;
}

-- What `parseFlags` gives for a list of flags up to its `)`.
unfoldable pub set_flags : List ℕ → MessageMeta → MessageMeta
set_flags list s =
    let f = parse_flags list (some s.keywords) in
    record s { flags = f.0; keywords = elim f.1 [ none ↦ s.keywords | some keywords ↦ keywords ] }

module _ (parse_internal_date : List ℕ → ℤ) where
  -- One key of a line of metadata.
  unfoldable pub meta_item : List ℕ → List ℕ → ℕ → MessageMeta → Option (MessageMeta × ℕ)
  meta_item line k i s =
      let v = read_astring line i in
      if same_text k (ascii "uid")
      then some (elim v.0 [ none ↦ s | some t ↦ record s { uid = uid_of t; have_uid = true } ], v.1)
      else if same_text k (ascii "rfc822.size")
      then some (elim v.0 [ none ↦ s | some t ↦ record s { size = uid_of t } ], v.1)
      else if same_text k (ascii "flags")
      then (let i = skip_space line i in
          elim (find_byte b')' line i) [
            | none ↦ none
            | some close ↦ some (set_flags (slice line i (close - i + 1)) s, suc close)
          ])
      else if same_text k (ascii "internaldate")
      then some
          (elim v.0 [ none ↦ s | some t ↦ record s { internal_date = parse_internal_date t } ], v.1)
      else some (s, i)

  unfoldable pub meta_line : List ℕ → Parsed MessageMeta
  meta_line line = elim (fetch_start line) [
    | none ↦ parsed no_meta
    | some i ↦ fetch_items meta_item line (length line) i no_meta
  ]

  unfoldable pub push_meta : MessageMeta → List MessageMeta → List MessageMeta
  push_meta s rest = if s.have_uid then s ∷ rest else rest

  unfoldable pub meta_lines : List (List ℕ) → Parsed (List MessageMeta)
  meta_lines [] = parsed []
  meta_lines (l ∷ ls) =
      then_parse (meta_line l) λ s. then_parse (meta_lines ls) λ rest. parsed (push_meta s rest)

  -- `parseFetchResponse`
  unfoldable pub parse_fetch_response : List ℕ → Parsed (List MessageMeta)
  parse_fetch_response response = then_parse (split_lines response) meta_lines
