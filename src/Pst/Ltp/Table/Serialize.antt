-- ===== src/Pst/Ltp/Table/Serialize.antt =====
-- `serialize` of `TableContext` in src/pst/ltp.cpp.
use imap2pst.Base.{
  ℕ, zero, suc, ◌+◌, ◌-◌, ◌*◌, ◌/◌, ◌%◌, ◌^◌, min, bit_or, List, [], ◌∷◌, ◌++◌, ltb, leb,
  if◌then◌else◌, length, get_or, set, take, drop, replicate, copy_at, u8, u32,
}
use imap2pst.Base.Sort.{sort_by}
use imap2pst.Pst.Format.{max_block_data, put8, put16, put32, poke32}
use imap2pst.Pst.Ndb.State.{unfinished}
use imap2pst.Pst.Run.{Run, ◌>>=◌, return, throw}
use imap2pst.Pst.Heap.{new_heap, alloc, max_alloc_size}
use imap2pst.Pst.Heap.Bth.{BthRecord, build_bth_into}
use imap2pst.Pst.Ltp.Subs.{SubnodeAllocator, spill}
use imap2pst.Pst.Ltp.Property.{Ltp, on_heap, on_subs, place_bytes, finish_heap}
use imap2pst.Pst.Ltp.Table.{TableContext, Row, Cell}
use imap2pst.Pst.Ltp.Layout.{Column, Layout, layout}

abbrev pub heap_sig_tc : ℕ
heap_sig_tc = 0x7C

-- The HNID of a variable cell: 0 for an empty value.
unfoldable pub cell_hnid : List ℕ → Run Ltp ℕ
cell_hnid [] = return 0
cell_hnid (b ∷ bs) = place_bytes (b ∷ bs)

-- A bit of the map of present cells, which begins at `ceb_off`.
unfoldable pub mark_present : ℕ → ℕ → List ℕ → List ℕ
mark_present ceb_off ibit buf =
    let at = ceb_off + ibit / 8 in
    set buf at (bit_or (get_or buf at 0) (u8 (0x80 / 2 ^ (ibit % 8))))

unfoldable pub cell_value : Column → Cell → List ℕ → Run Ltp (List ℕ)
cell_value col c buf =
    if c.variable
    then (cell_hnid c.bytes >>= λ hnid. return (poke32 buf col.ib hnid))
    else return (copy_at buf col.ib (take (min col.cb (length c.bytes)) c.bytes))

unfoldable pub put_cell : ℕ → Column → Cell → List ℕ → Run Ltp (List ℕ)
put_cell ceb_off col c buf =
    if c.present
    then (cell_value col c buf >>= λ buf'. return (mark_present ceb_off col.ibit buf'))
    else return buf

-- The loop over the columns of a row, which has a cell for each.
unfoldable pub fill_row : ℕ → List Column → List Cell → List ℕ → Run Ltp (List ℕ)
fill_row ceb_off [] cells buf = return buf
fill_row ceb_off (col ∷ cols) [] buf = return buf
fill_row ceb_off (col ∷ cols) (c ∷ cells) buf =
    put_cell ceb_off col c buf >>= fill_row ceb_off cols cells

unfoldable pub fill_rows : Layout → List Row → Run Ltp (List ℕ)
fill_rows l [] = return []
fill_rows l (r ∷ rows) = do
  buf ← fill_row l.rgib_1b l.cols r.cells (replicate l.row_size 0)
  rest ← fill_rows l rows
  return (buf ++ rest)

-- The loop that pads the blocks of a subnode, over the rows that are left. The fuel is their number.
unfoldable pub pad_blocks : ℕ → ℕ → ℕ → ℕ → List ℕ → Run Ltp (List ℕ)
pad_blocks fuel row_size rows_per_block zero matrix = return []
pad_blocks zero row_size rows_per_block (suc left) matrix = throw unfinished
pad_blocks (suc fuel) row_size rows_per_block (suc left) matrix =
    let n = min rows_per_block (suc left) in
    let pad = if ltb n (suc left) then replicate (max_block_data - n * row_size) 0 else [] in
    pad_blocks fuel row_size rows_per_block (suc left - rows_per_block) (drop (n * row_size) matrix)
    >>= λ rest. return (take (n * row_size) matrix ++ (pad ++ rest))

-- The matrix goes to the heap, or to a subnode whose blocks hold whole rows.
unfoldable pub place_matrix : ℕ → ℕ → List ℕ → Run Ltp ℕ
place_matrix row_size zero matrix = return 0
place_matrix row_size (suc rows) matrix =
    if leb (length matrix) max_alloc_size
    then on_heap (alloc matrix)
    else pad_blocks (suc rows) row_size (max_block_data / row_size) (suc rows) matrix >>= λ padded.
        on_subs (spill padded)

unfoldable pub row_records : ℕ → List Row → List BthRecord
row_records i [] = []
row_records i (r ∷ rows) =
    record { key = put32 [] r.row_id; value = put32 [] (u32 i) } ∷ row_records (i + 1) rows

unfoldable pub column_descriptors : List Column → List ℕ → List ℕ
column_descriptors [] info = info
column_descriptors (c ∷ cs) info =
    column_descriptors cs (put8 (put8 (put16 (put32 info c.tag) c.ib) c.cb) c.ibit)

-- TCINFO
unfoldable pub table_info : Layout → ℕ → ℕ → List ℕ
table_info l hid_row_index hnid_rows =
    let head = put8 (put8 [] heap_sig_tc) (u8 (length l.cols)) in
    let ends = put16 (put16 (put16 (put16 head l.rgib_4b) l.rgib_2b) l.rgib_1b) l.rgib_bm in
    column_descriptors (sort_by (λ (c : Column). c.tag) l.cols)
      (put32 (put32 (put32 ends hid_row_index) hnid_rows) 0)

unfoldable pub serialize_tc : TableContext → Run SubnodeAllocator (List ℕ)
serialize_tc t subs =
    let l = layout t.columns in
    let build : Run Ltp (List ℕ) = (do
      matrix ← fill_rows l t.rows
      hnid_rows ← place_matrix l.row_size (length t.rows) matrix
      hid_row_index ← on_heap (build_bth_into alloc max_alloc_size 4 4 (row_records 0 t.rows))
      root ← on_heap (alloc (table_info l hid_row_index hnid_rows))
      finish_heap root) in
    let (r, s) = build (record { heap = new_heap heap_sig_tc; subs = subs }) in (r, s.subs)
