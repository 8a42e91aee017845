-- ===== src/Tests/Ltp.antt =====
-- Runs of the LTP layer: src/pst/heap.h and ltp.cpp.
use imap2pst.Base.{
  ℕ, ◌+◌, ◌≤◌, ◌≡◌, refl, arith, List, [], ◌∷◌, All, some, true, if◌then◌else◌, ◌==◌, length, inl,
  inr,
}
use imap2pst.Pst.Format.{tag_id}
use imap2pst.Pst.Heap.{alloc, max_alloc_size}
use imap2pst.Pst.Heap.Hid.{lookup_hid}
use imap2pst.Pst.Heap.Bth.{BthRecord, build_bth_into}
use imap2pst.Pst.Heap.Bth.Pages.{IsRecord}
use imap2pst.Pst.Heap.Bth.Build.{HasTree}
use imap2pst.Pst.Heap.Bth.OnHeap.{build_bth-HasTree}
use imap2pst.Base.Int.{negsuc}
use imap2pst.Pst.Ltp.Time.{
  seconds_to_1970, unix_to_filetime, unix_seconds, unix_to_filetime-unix_seconds,
}
use imap2pst.Pst.Ltp.Text.Units.{utf16_text}
use imap2pst.Pst.Ltp.Text.{utf8_to_utf16le}
use imap2pst.Pst.Ltp.Text.Rounds.{IsScalar, utf8_text, utf8_to_utf16le-utf8_text}
use imap2pst.Pst.Ltp.Property.{PropertyContext, inline_value, put_value, has}
use imap2pst.Pst.Ltp.Property.Values.{find_value, count_id, put_value-find_value}
use imap2pst.Pst.Ltp.Table.{tag_ltp_row_id, tag_ltp_row_ver}
use imap2pst.Pst.Ltp.Layout.{layout}
use imap2pst.Pst.Ltp.Layout.Row.{IsWholeRow, layout-IsWholeRow}
use imap2pst.Tests.Heap.{property_heap, property_heap-IsHeap}

abbrev two_records : List BthRecord
two_records =
    record { key = 2 ∷ 0 ∷ []; value = 1 ∷ 2 ∷ 3 ∷ 4 ∷ 5 ∷ 6 ∷ [] }
    ∷ record { key = 1 ∷ 0 ∷ []; value = 6 ∷ 5 ∷ 4 ∷ 3 ∷ 2 ∷ 1 ∷ [] }
    ∷ []

two_records-IsRecord : All (IsRecord 2 6) two_records
two_records-IsRecord =
    (record { key = refl; value = refl }, (record { key = refl; value = refl }, tt))

tree_of_two_records :
    HasTree lookup_hid 2 6 (build_bth_into alloc max_alloc_size 2 6) two_records property_heap
tree_of_two_records =
    build_bth-HasTree 2 6 two_records property_heap property_heap-IsHeap two_records-IsRecord
      (omega arith) (omega arith) (omega arith) (omega arith)

-- One value of each length that a code point has in UTF-8.
abbrev four_points : List ℕ
four_points = 0x41 ∷ 0xFC ∷ 0x20AC ∷ 0x1F600 ∷ []

four_points-IsScalar : All IsScalar four_points
unfolding IsScalar
four_points-IsScalar = (
  inl (omega arith),
  (inl (omega arith), (inl (omega arith), (inr (omega arith, omega arith), tt))),
)

four_points_in_utf16 : utf8_to_utf16le (utf8_text four_points) ≡ utf16_text four_points
four_points_in_utf16 = utf8_to_utf16le-utf8_text four_points four_points-IsScalar

abbrev one_value : PropertyContext
one_value = inline_value 0x0E070003 1 ∷ []

one_value_once : count_id (tag_id 0x0E070003) one_value ≤ 1
unfolding count_id tag_id
one_value_once = omega arith

put_over_one_value :
    (find_value (tag_id 0x0E070003) (put_value 0x0E070003 (inline_value 0x0E070003 9) one_value) ≡ (
      if tag_id 0x0E070003 == tag_id 0x0E070003
      then some (inline_value 0x0E070003 9)
      else find_value (tag_id 0x0E070003) one_value))
    × (has 0x0E070003 (put_value 0x0E070003 (inline_value 0x0E070003 9) one_value) ≡ true)
    × (count_id (tag_id 0x0E070003) (put_value 0x0E070003 (inline_value 0x0E070003 9) one_value)
        ≤ 1)
put_over_one_value =
    put_value-find_value 0x0E070003 (tag_id 0x0E070003) (inline_value 0x0E070003 9) one_value
      one_value_once

-- A row with a string, a time, a short and a flag.
abbrev four_tags : List ℕ
four_tags = 0x0037001F ∷ 0x30070040 ∷ 0x00010002 ∷ 0x0E1B000B ∷ []

row_of_four_tags :
    IsWholeRow (length four_tags + 2) (layout (tag_ltp_row_id ∷ tag_ltp_row_ver ∷ four_tags))
row_of_four_tags = layout-IsWholeRow four_tags (omega arith)

-- The moment one second before 1601 and the moment 400 years after its start.
times_of_two_moments :
    (unix_to_filetime (unix_seconds 12622780800) ≡ 126227808000000000)
    × (unix_to_filetime (negsuc (seconds_to_1970 + 0)) ≡ 0)
times_of_two_moments = unix_to_filetime-unix_seconds 12622780800 0 (omega arith)
