-- ===== src/Tests/Names.antt =====
-- Runs of `NameIdMap` of src/pst/nameid_map.cpp.
use imap2pst.Base.{◌<◌, ◌≡◌, ◌≢◌, ◌⊎◌, refl, arith, length, ap}
use imap2pst.Base.Text.{ascii}
use imap2pst.Pst.NameidMap.{
  ps_internet_headers, guid_index, new_map, max_names, fold_byte, fold_case, find_or, find_key,
  find_guid, same_guid, guid_lt, index_in, mint, mint_string, id_for_string, id_for_numeric,
}
use imap2pst.Pst.NameidMap.Ids.{
  IsNumbered, IsNameMap, id_for-IsNameMap, id_for_string-fold_case, id_for_string_distinct,
}

new_map-IsNameMap : IsNameMap new_map
unfolding IsNumbered
new_map-IsNameMap = record { numbered = refl; few = omega arith }

ids_of_new_map :
    IsNameMap (id_for_string ps_internet_headers (ascii "List-Id") new_map).1
    × IsNameMap (id_for_numeric ps_internet_headers 0x8233 new_map).1
    × (((id_for_string ps_internet_headers (ascii "List-Id") new_map).0 ≢ 0)
        ⊎ (length (id_for_string ps_internet_headers (ascii "List-Id") new_map).1.entries
            ≡ max_names))
    × (((id_for_numeric ps_internet_headers 0x8233 new_map).0 ≢ 0)
        ⊎ (length (id_for_numeric ps_internet_headers 0x8233 new_map).1.entries ≡ max_names))
ids_of_new_map =
    id_for-IsNameMap ps_internet_headers (ascii "List-Id") 0x8233 new_map new_map-IsNameMap

same_folded : fold_case (ascii "Content-Type") ≡ fold_case (ascii "Content-type")
unfolding fold_case fold_byte
same_folded = refl

content_type_again :
    id_for_string ps_internet_headers
      (ascii "Content-type")
      (id_for_string ps_internet_headers (ascii "Content-Type") new_map).1
    ≡ id_for_string ps_internet_headers (ascii "Content-Type") new_map
content_type_again =
    id_for_string-fold_case ps_internet_headers (ascii "Content-Type") (ascii "Content-type")
      new_map same_folded

first_id_counts : 0 < (id_for_string ps_internet_headers (ascii "Content-Type") new_map).0
unfolding id_for_string mint_string mint find_or find_key guid_index index_in find_guid same_guid
    guid_lt fold_case fold_byte
first_id_counts = omega arith

same_letters :
    ((guid_index ps_internet_headers new_map).0
      ≡ (guid_index ps_internet_headers
          (id_for_string ps_internet_headers (ascii "Content-Type") new_map).1).0)
    × (fold_case (ascii "Content-Type") ≡ fold_case (ascii "Content-type"))
same_letters =
    id_for_string_distinct ps_internet_headers ps_internet_headers (ascii "Content-Type")
      (ascii "Content-type") new_map new_map-IsNameMap first_id_counts
      (ap (λ r. r.0) content_type_again)
