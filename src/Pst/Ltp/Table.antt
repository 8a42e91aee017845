-- ===== src/Pst/Ltp/Table.antt =====
-- `TableContext` of src/pst/ltp.h and ltp.cpp: the columns, the rows and their cells.
pub mod Serialize
use imap2pst.Base.{
  ℕ, zero, suc, ◌+◌, ◌-◌, List, [], ◌∷◌, ◌++◌, Option, none, some, Bool, true, false, ◌||◌, ltb,
  ◌==◌, if◌then◌else◌, length, map, get_or, set, take, replicate,
}
use imap2pst.Pst.Format.{tag_type, put8, put16, put32, put64}
use imap2pst.Pst.Format.PropType
use imap2pst.Pst.Ndb.State.{Result, ok, row_out_of_range, column_not_declared}
use imap2pst.Pst.Run.{Run, ◌>>=◌, ◌>>◌, return, throw}
use imap2pst.Pst.Ltp.Text.{utf8_to_utf16le}

pub record Cell : Type 0 where
  pub present : Bool
  pub variable : Bool
  pub bytes : List ℕ

abbrev pub empty_cell : Cell
empty_cell = record { present = false; variable = false; bytes = [] }

pub record Row : Type 0 where
  pub row_id : ℕ
  pub cells : List Cell

abbrev pub empty_row : Row
empty_row = record { row_id = 0; cells = [] }

pub record TableContext : Type 0 where
  pub columns : List ℕ
  pub rows : List Row

abbrev pub tag_ltp_row_id : ℕ
tag_ltp_row_id = 0x67F20003

abbrev pub tag_ltp_row_ver : ℕ
tag_ltp_row_ver = 0x67F30003

abbrev pub new_table : TableContext
new_table = record { columns = tag_ltp_row_id ∷ tag_ltp_row_ver ∷ []; rows = [] }

-- `std::find` in the columns
unfoldable pub has_column : ℕ → List ℕ → Bool
has_column tag [] = false
has_column tag (c ∷ cs) = (c == tag) || has_column tag cs

-- `row.cells.resize(n)`
unfoldable pub resize_cells : ℕ → List Cell → List Cell
resize_cells n cells = take n cells ++ replicate (n - length cells) empty_cell

unfoldable pub add_column : ℕ → TableContext → TableContext
add_column tag t =
    if has_column tag t.columns
    then t
    else (let columns = t.columns ++ (tag ∷ []) in
        record {
          columns = columns;
          rows =
              map (λ (r : Row). record r { cells = resize_cells (length columns) r.cells }) t.rows;
        })

-- The loop of `columnIndex`, from position `i` on.
unfoldable pub column_index : ℕ → ℕ → List ℕ → Option ℕ
column_index i tag [] = none
column_index i tag (c ∷ cs) = if c == tag then some i else column_index (i + 1) tag cs

-- `cell`, which gives the column of the cell in its row.
unfoldable pub cell : ℕ → ℕ → Run TableContext ℕ
cell row tag t =
    if ltb row (length t.rows)
    then elim (column_index 0 tag t.columns) [
      | some i ↦ return i t
      | none ↦ throw column_not_declared t
    ]
    else throw row_out_of_range t

-- What every setter does with the cell that `cell` gives it.
unfoldable pub set_cell : ℕ → ℕ → Cell → Run TableContext (Unit {0})
set_cell row tag c = cell row tag >>= λ i t.
    let r = get_or t.rows row empty_row in
    (ok tt, record t { rows = set t.rows row (record r { cells = set r.cells i c }) })

abbrev pub fixed_cell : List ℕ → Cell
fixed_cell b = record { present = true; variable = false; bytes = b }

abbrev pub variable_cell : List ℕ → Cell
variable_cell b = record { present = true; variable = true; bytes = b }

unfoldable pub set_int16 : ℕ → ℕ → ℕ → Run TableContext (Unit {0})
set_int16 row tag v = set_cell row tag (fixed_cell (put16 [] v))

unfoldable pub set_int32 : ℕ → ℕ → ℕ → Run TableContext (Unit {0})
set_int32 row tag v = set_cell row tag (fixed_cell (put32 [] v))

unfoldable pub set_bool : ℕ → ℕ → Bool → Run TableContext (Unit {0})
set_bool row tag v = set_cell row tag (fixed_cell (put8 [] (if v then 1 else 0)))

unfoldable pub set_int64 : ℕ → ℕ → ℕ → Run TableContext (Unit {0})
set_int64 row tag v = set_cell row tag (fixed_cell (put64 [] v))

unfoldable pub set_time : ℕ → ℕ → ℕ → Run TableContext (Unit {0})
set_time row tag filetime = set_int64 row tag filetime

unfoldable pub set_string : ℕ → ℕ → List ℕ → Run TableContext (Unit {0})
set_string row tag utf8 =
    set_cell row tag
      (variable_cell (if tag_type tag == PropType.string8 then utf8 else utf8_to_utf16le utf8))

unfoldable pub set_binary : ℕ → ℕ → List ℕ → Run TableContext (Unit {0})
set_binary row tag b = set_cell row tag (variable_cell b)

-- `addRow`, which gives the index of the new row.
unfoldable pub add_row : ℕ → Run TableContext ℕ
add_row row_id t =
    let idx = length t.rows in
    let r : Row = record { row_id = row_id; cells = replicate (length t.columns) empty_cell } in
    let build : Run TableContext ℕ = (do
      set_int32 idx tag_ltp_row_id row_id
      set_int32 idx tag_ltp_row_ver 1
      return idx) in
    build (record t { rows = t.rows ++ (r ∷ []) })
