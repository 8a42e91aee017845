-- ===== src/Pst/Ltp/Property.antt =====
-- `PropertyContext` of src/pst/ltp.h and ltp.cpp.
pub mod Values
use imap2pst.Base.{
  ℕ, ◌+◌, ◌*◌, List, [], ◌∷◌, ◌++◌, Bool, true, false, ◌||◌, leb, ◌==◌, if◌then◌else◌, length, map,
  u16, u32,
}
use imap2pst.Pst.Format.{tag_id, tag_type, put16, put32, put64}
use imap2pst.Pst.Format.PropType
use imap2pst.Pst.Ndb.State.{Result, ok}
use imap2pst.Pst.Run.{Run, ◌>>=◌, ◌>>◌, return, on_part}
use imap2pst.Pst.Heap.{HeapNode, new_heap, alloc, max_alloc_size, set_user_root, serialize}
use imap2pst.Pst.Heap.Bth.{BthRecord, build_bth_into}
use imap2pst.Pst.Ltp.Text.{utf8_to_utf16le}
use imap2pst.Pst.Ltp.Subs.{SubnodeAllocator, spill}

pub data Kind : Type 0 where
  is_inline is_bytes is_spilled : Kind

pub record Value : Type 0 where
  pub tag : ℕ
  pub kind : Kind
  pub hnid : ℕ
  pub bytes : List ℕ

-- `values_` is the whole state.
abbrev pub PropertyContext : Type 0
PropertyContext = List Value

-- `put`: the first value of the same id is replaced, or the value goes to the end.
unfoldable pub put_value : ℕ → Value → PropertyContext → PropertyContext
put_value tag v [] = record v { tag = tag } ∷ []
put_value tag v (w ∷ ws) =
    if tag_id w.tag == tag_id tag then record v { tag = tag } ∷ ws else w ∷ put_value tag v ws

abbrev pub inline_value : ℕ → ℕ → Value
inline_value tag v = record { tag = tag; kind = is_inline; hnid = v; bytes = [] }

abbrev pub bytes_value : ℕ → List ℕ → Value
bytes_value tag b = record { tag = tag; kind = is_bytes; hnid = 0; bytes = b }

unfoldable pub set_int16 : ℕ → ℕ → PropertyContext → PropertyContext
set_int16 tag v = put_value tag (inline_value tag v)

unfoldable pub set_int32 : ℕ → ℕ → PropertyContext → PropertyContext
set_int32 tag v = put_value tag (inline_value tag v)

unfoldable pub set_bool : ℕ → Bool → PropertyContext → PropertyContext
set_bool tag v = put_value tag (inline_value tag (if v then 1 else 0))

unfoldable pub set_spilled_value : ℕ → ℕ → PropertyContext → PropertyContext
set_spilled_value tag nid =
    put_value tag (record { tag = tag; kind = is_spilled; hnid = nid; bytes = [] })

unfoldable pub set_int64 : ℕ → ℕ → PropertyContext → PropertyContext
set_int64 tag v = put_value tag (bytes_value tag (put64 [] v))

unfoldable pub set_time : ℕ → ℕ → PropertyContext → PropertyContext
set_time tag filetime = set_int64 tag filetime

unfoldable pub set_string : ℕ → List ℕ → PropertyContext → PropertyContext
set_string tag utf8 =
    put_value tag
      (bytes_value tag (if tag_type tag == PropType.string8 then utf8 else utf8_to_utf16le utf8))

unfoldable pub set_binary : ℕ → List ℕ → PropertyContext → PropertyContext
set_binary tag b = put_value tag (bytes_value tag b)

-- The loop of `setStringArray` over the offsets.
unfoldable pub put_offsets : ℕ → List (List ℕ) → List ℕ → List ℕ
put_offsets offset [] buf = buf
put_offsets offset (e ∷ es) buf = put_offsets (u32 (offset + u32 (length e))) es (put32 buf offset)

unfoldable pub put_items : List (List ℕ) → List ℕ → List ℕ
put_items [] buf = buf
put_items (e ∷ es) buf = put_items es (buf ++ e)

-- The buffer of `setStringArray`, of the encoded items.
unfoldable pub string_array : List (List ℕ) → List ℕ
string_array encoded =
    let n = length encoded in
    put_items encoded (put_offsets (u32 (4 + 4 * n)) encoded (put32 [] (u32 n)))

unfoldable pub set_string_array : ℕ → List (List ℕ) → PropertyContext → PropertyContext
set_string_array tag items =
    put_value tag (bytes_value tag (string_array (map utf8_to_utf16le items)))

unfoldable pub set_object : ℕ → ℕ → ℕ → PropertyContext → PropertyContext
set_object tag nid size = put_value tag (bytes_value tag (put32 (put32 [] nid) size))

unfoldable pub has : ℕ → PropertyContext → Bool
has tag [] = false
has tag (v ∷ vs) = (tag_id v.tag == tag_id tag) || has tag vs

-- What `serialize` works on: the heap that it builds, and the allocator that it is given.
pub record Ltp : Type 0 where
  pub heap : HeapNode
  pub subs : SubnodeAllocator

abbrev pub on_heap : {A : Type 0} → Run HeapNode A → Run Ltp A
on_heap m = on_part (λ s. s.heap) (λ h s. record s { heap = h }) m

abbrev pub on_subs : {A : Type 0} → Run SubnodeAllocator A → Run Ltp A
on_subs m = on_part (λ s. s.subs) (λ t s. record s { subs = t }) m

-- Bytes go to the heap, or to a subnode where they are too many for it.
unfoldable pub place_bytes : List ℕ → Run Ltp ℕ
place_bytes b = if leb (length b) max_alloc_size then on_heap (alloc b) else on_subs (spill b)

unfoldable pub place_value : Value → Run Ltp ℕ
place_value v = elim v.kind [
  | is_inline ↦ return v.hnid
  | is_spilled ↦ return v.hnid
  | is_bytes ↦ place_bytes v.bytes
]

unfoldable pub value_record : Value → ℕ → BthRecord
value_record v hnid = record {
  key = put16 [] (tag_id v.tag);
  value = put32 (put16 [] (u16 (tag_type v.tag))) hnid;
}

unfoldable pub value_records : PropertyContext → Run Ltp (List BthRecord)
value_records [] = return []
value_records (v ∷ vs) = do
  hnid ← place_value v
  rest ← value_records vs
  return (value_record v hnid ∷ rest)

-- The end of `serialize`: the user root is set, and the heap's bytes are the result.
abbrev pub finish_heap : ℕ → Run Ltp (List ℕ)
finish_heap hid s = let h = set_user_root hid s.heap in (ok (serialize h), record s { heap = h })

abbrev pub heap_sig_pc : ℕ
heap_sig_pc = 0xBC

-- `serialize`, with the heap that it makes
unfoldable pub serialize_pc : PropertyContext → Run SubnodeAllocator (List ℕ)
serialize_pc values subs =
    let build : Run Ltp (List ℕ) = (do
      records ← value_records values
      root ← on_heap (build_bth_into alloc max_alloc_size 2 6 records)
      finish_heap root) in
    let (r, s) = build (record { heap = new_heap heap_sig_pc; subs = subs }) in (r, s.subs)
