-- ===== src/Pst/NameidMap/Streams.antt =====
-- `buildPropertyContext` of src/pst/nameid_map.cpp: the streams and the buckets.
use imap2pst.Base.{
  ℕ, ◌+◌, ◌*◌, ◌%◌, bit_or, bit_xor, List, [], ◌∷◌, ◌++◌, if◌then◌else◌, get_or, set, replicate,
  u16,
}
use imap2pst.Pst.Format.{make_tag, put16, put32}
use imap2pst.Pst.Format.PropType
use imap2pst.Pst.Ltp.Property.{PropertyContext, set_int32, set_binary}
use imap2pst.Pst.NameidMap.{Guid, guid_bytes, Entry, NameIdMap, bucket_count}

abbrev pub tag_bucket_count : ℕ
tag_bucket_count = 0x00010003

abbrev pub tag_stream_guid : ℕ
tag_stream_guid = 0x00020102

abbrev pub tag_stream_entry : ℕ
tag_stream_entry = 0x00030102

abbrev pub tag_stream_string : ℕ
tag_stream_string = 0x00040102

-- `encode`
unfoldable pub encode : Entry → List ℕ
encode e =
    put16
      (put16 (put32 [] e.numeric) (u16 (bit_or (e.guid_index * 2) (if e.is_string then 1 else 0))))
      e.prop_index

unfoldable pub guid_stream : List Guid → List ℕ
guid_stream [] = []
guid_stream (g ∷ gs) = guid_bytes g ++ guid_stream gs

unfoldable pub entry_stream : List Entry → List ℕ
entry_stream [] = []
entry_stream (e ∷ es) = encode e ++ entry_stream es

unfoldable pub bucket_of : Entry → ℕ
bucket_of e = bit_xor e.hash e.guid_index % bucket_count

unfoldable pub fill_buckets : List Entry → List (List ℕ) → List (List ℕ)
fill_buckets [] buckets = buckets
fill_buckets (e ∷ es) buckets =
    let b = bucket_of e in fill_buckets es (set buckets b (get_or buckets b [] ++ encode e))

-- The loop over the buckets from number `i` on; an empty one is left out.
unfoldable pub put_buckets : ℕ → List (List ℕ) → PropertyContext → PropertyContext
put_buckets i [] pc = pc
put_buckets i ([] ∷ bs) pc = put_buckets (i + 1) bs pc
put_buckets i ((b ∷ bucket) ∷ bs) pc =
    put_buckets (i + 1) bs
      (set_binary (make_tag (u16 (0x1000 + i)) PropType.binary) (b ∷ bucket) pc)

-- `buildPropertyContext`
unfoldable pub build_property_context : NameIdMap → PropertyContext
build_property_context m =
    let pc = set_int32 tag_bucket_count bucket_count [] in
    let pc = set_binary tag_stream_guid (guid_stream m.extra_guids) pc in
    let pc = set_binary tag_stream_entry (entry_stream m.entries) pc in
    let pc = set_binary tag_stream_string m.string_stream pc in
    put_buckets 0 (fill_buckets m.entries (replicate bucket_count [])) pc
