-- ===== src/Pst/NameidMap.antt =====
-- `NameIdMap` of src/pst/nameid_map.h and nameid_map.cpp: the ids of the named properties. A `std::map` is a list
-- of keys and values, the newest first; `by_string_` and `by_numeric_` are one list, with keys of either kind.
pub mod Streams
pub mod Keys
pub mod Ids
use imap2pst.Base.{
  ℕ, zero, suc, ◌+◌, ◌-◌, List, [], ◌∷◌, ◌++◌, Option, none, some, Bool, true, false, not, ◌&&◌,
  ◌||◌, ltb, leb, ◌==◌, if◌then◌else◌, length, replicate, u16, u32,
}
use imap2pst.Base.Text.{same_text}
use imap2pst.Pst.Format.{align_up, put16, put32, put_bytes}
use imap2pst.Pst.Crc.{compute_crc}
use imap2pst.Pst.Ltp.Text.{utf8_to_utf16le}

pub record Guid : Type 0 where
  pub data1 : ℕ
  pub data2 : ℕ
  pub data3 : ℕ
  pub data4 : List ℕ

-- `Guid::bytes`
unfoldable pub guid_bytes : Guid → List ℕ
guid_bytes g = put_bytes (put16 (put16 (put32 [] g.data1) g.data2) g.data3) g.data4

-- `<` on `std::vector<std::uint8_t>`
unfoldable pub bytes_lt : List ℕ → List ℕ → Bool
bytes_lt [] [] = false
bytes_lt [] (d ∷ ds) = true
bytes_lt (c ∷ cs) [] = false
bytes_lt (c ∷ cs) (d ∷ ds) = ltb c d || (c == d && bytes_lt cs ds)

-- `operator<`
unfoldable pub guid_lt : Guid → Guid → Bool
guid_lt g h = bytes_lt (guid_bytes g) (guid_bytes h)

abbrev pub common_guid_end : List ℕ
common_guid_end = 0xC0 ∷ 0 ∷ 0 ∷ 0 ∷ 0 ∷ 0 ∷ 0 ∷ 0x46 ∷ []

abbrev pub ps_mapi : Guid
ps_mapi = record { data1 = 0x00020328; data2 = 0; data3 = 0; data4 = common_guid_end }

abbrev pub ps_public_strings : Guid
ps_public_strings = record { data1 = 0x00020329; data2 = 0; data3 = 0; data4 = common_guid_end }

abbrev pub ps_internet_headers : Guid
ps_internet_headers = record { data1 = 0x00020386; data2 = 0; data3 = 0; data4 = common_guid_end }

abbrev pub first_named_id : ℕ
first_named_id = 0x8000

abbrev pub max_names : ℕ
max_names = 4096

abbrev pub bucket_count : ℕ
bucket_count = 251

pub record Entry : Type 0 where
  pub is_string : Bool
  pub numeric : ℕ
  pub guid_index : ℕ
  pub prop_index : ℕ
  pub hash : ℕ

-- A key of `by_string_` or of `by_numeric_`: the index of the GUID, and the name or the number.
pub data NameKey : Type 0 where
  by_string : ℕ → List ℕ → NameKey
  by_numeric : ℕ → ℕ → NameKey

pub record NameIdMap : Type 0 where
  pub entries : List Entry
  pub extra_guids : List Guid
  pub string_stream : List ℕ
  pub ids : List (NameKey × ℕ)

abbrev pub new_map : NameIdMap
new_map = record { entries = []; extra_guids = []; string_stream = []; ids = [] }

unfoldable pub fold_byte : ℕ → ℕ
fold_byte c = if leb b'A' c && leb c b'Z' then c - 65 + 97 else c

-- `foldCase`
unfoldable pub fold_case : List ℕ → List ℕ
fold_case [] = []
fold_case (c ∷ cs) = fold_byte c ∷ fold_case cs

unfoldable pub same_key : NameKey → NameKey → Bool
same_key (by_string g s) (by_string h t) = (g == h) && same_text s t
same_key (by_numeric g n) (by_numeric h m) = (g == h) && (n == m)
same_key (by_string g s) (by_numeric h m) = false
same_key (by_numeric g n) (by_string h t) = false

-- `find` of a map
unfoldable pub find_key : NameKey → List (NameKey × ℕ) → Option ℕ
find_key k [] = none
find_key k (e ∷ es) = if same_key e.0 k then some e.1 else find_key k es

unfoldable pub same_guid : Guid → Guid → Bool
same_guid g h = not (guid_lt g h) && not (guid_lt h g)

-- The loop of `guidIndex` over the further GUIDs, from position `i` on.
unfoldable pub find_guid : ℕ → Guid → List Guid → Option ℕ
find_guid i guid [] = none
find_guid i guid (g ∷ gs) = if same_guid g guid then some i else find_guid (i + 1) guid gs

-- `guidIndex` on the list of further GUIDs
unfoldable pub index_in : Guid → List Guid → ℕ × List Guid
index_in guid gs =
    if same_guid guid ps_mapi
    then (1, gs)
    else if same_guid guid ps_public_strings
    then (2, gs)
    else elim (find_guid 0 guid gs) [
      | some i ↦ (u16 (3 + i), gs)
      | none ↦ let gs = gs ++ (guid ∷ []) in (u16 (2 + length gs), gs)
    ]

-- `guidIndex`
unfoldable pub guid_index : Guid → NameIdMap → ℕ × NameIdMap
guid_index guid m = let r = index_in guid m.extra_guids in (r.0, record m { extra_guids = r.1 })

-- `ensureGuid`
unfoldable pub ensure_guid : Guid → NameIdMap → NameIdMap
ensure_guid guid m = (guid_index guid m).1

-- The end of both functions: the entry gets the next number, and the key its id.
unfoldable pub mint : NameKey → (ℕ → Entry) → NameIdMap → ℕ × NameIdMap
mint key entry m =
    let prop_index = u16 (length m.entries) in
    let id = u16 (first_named_id + prop_index) in
    (id, record m { entries = m.entries ++ (entry prop_index ∷ []); ids = (key, id) ∷ m.ids })

-- A name in the string stream: its length, its UTF-16 text, and zeros up to a multiple of four.
unfoldable pub push_name : List ℕ → List ℕ → List ℕ
push_name utf16 stream =
    let stream = put32 stream (u32 (length utf16)) ++ utf16 in
    stream ++ replicate (align_up (length stream) 4 - length stream) 0

-- `idForString`, where the name is new and there is room for it
unfoldable pub mint_string : ℕ → List ℕ → NameIdMap → ℕ × NameIdMap
mint_string wguid name m =
    let utf16 = utf8_to_utf16le name in
    let offset = u32 (length m.string_stream) in
    mint (by_string wguid (fold_case name))
      (λ prop_index. record {
        is_string = true;
        numeric = offset;
        guid_index = wguid;
        prop_index = prop_index;
        hash = compute_crc 0 utf16;
      })
      (record m { string_stream = push_name utf16 m.string_stream })

unfoldable pub mint_numeric : ℕ → ℕ → NameIdMap → ℕ × NameIdMap
mint_numeric wguid id m =
    mint (by_numeric wguid id)
      (λ prop_index. record {
        is_string = false;
        numeric = id;
        guid_index = wguid;
        prop_index = prop_index;
        hash = id;
      })
      m

-- What both functions do before they mint an id.
unfoldable pub find_or : NameKey → (NameIdMap → ℕ × NameIdMap) → NameIdMap → ℕ × NameIdMap
find_or key mint_new m = elim (find_key key m.ids) [
  | some id ↦ (id, m)
  | none ↦ if leb max_names (length m.entries) then (0, m) else mint_new m
]

-- `idForString`
unfoldable pub id_for_string : Guid → List ℕ → NameIdMap → ℕ × NameIdMap
id_for_string guid name m =
    let g = guid_index guid m in find_or (by_string g.0 (fold_case name)) (mint_string g.0 name) g.1

-- `idForNumeric`
unfoldable pub id_for_numeric : Guid → ℕ → NameIdMap → ℕ × NameIdMap
id_for_numeric guid id m =
    let g = guid_index guid m in find_or (by_numeric g.0 id) (mint_numeric g.0 id) g.1
