-- ===== src/Pst/Ltp/Layout.antt =====
-- `layout` of src/pst/ltp.cpp: where the columns stand in a row.
pub mod Places
pub mod Apart
pub mod Row
use imap2pst.Base.{ℕ, zero, suc, ◌+◌, ◌/◌, List, [], ◌∷◌, ◌==◌, if◌then◌else◌, length, u8, u16}
use imap2pst.Pst.Format.{tag_type, fixed_prop_size}

pub record Column : Type 0 where
  pub tag : ℕ
  pub ib : ℕ
  pub cb : ℕ
  pub ibit : ℕ

-- `cols`, `rgib` and `row_size`
pub record Layout : Type 0 where
  pub cols : List Column
  pub rgib_4b : ℕ
  pub rgib_2b : ℕ
  pub rgib_1b : ℕ
  pub rgib_bm : ℕ
  pub row_size : ℕ

-- The width of a column: a value of variable width is an HNID of four bytes.
unfoldable pub column_width : ℕ → ℕ
column_width tag =
    let fixed = fixed_prop_size (tag_type tag) in u8 (if fixed == 0 then 4 else fixed)

-- The first loop, from column `i` on.
unfoldable pub describe_columns : ℕ → List ℕ → List Column
describe_columns i [] = []
describe_columns i (tag ∷ tags) =
    record { tag = tag; ib = 0; cb = column_width tag; ibit = u8 i } ∷ describe_columns (i + 1) tags

-- A loop over the columns from the third on: those of one width get their place.
unfoldable pub place_width : ℕ → ℕ → List Column → ℕ × List Column
place_width width off [] = (off, [])
place_width width off (c ∷ cs) =
    let rest = place_width width (if c.cb == width then u16 (off + width) else off) cs in
    (rest.0, (if c.cb == width then record c { ib = off } else c) ∷ rest.1)

-- The loops over the widths, from the widest on, for the columns from the third on.
unfoldable pub place_columns : List Column → Layout
place_columns cs =
    let p8 = place_width 8 8 cs in
    let p4 = place_width 4 p8.0 p8.1 in
    let p2 = place_width 2 p4.0 p4.1 in
    let p1 = place_width 1 p2.0 p2.1 in
    let end = u16 (p1.0 + (length cs + 2 + 7) / 8) in
    record {
      cols = p1.1;
      rgib_4b = p4.0;
      rgib_2b = p2.0;
      rgib_1b = p1.0;
      rgib_bm = end;
      row_size = end;
    }

-- `layout`. A table has two columns at least.
unfoldable pub layout_of : List Column → Layout
layout_of [] = place_columns []
layout_of (c ∷ []) = place_columns []
layout_of (c ∷ d ∷ cs) =
    let l = place_columns cs in
    record l { cols = record c { ib = 0 } ∷ record d { ib = 4 } ∷ l.cols }

unfoldable pub layout : List ℕ → Layout
layout columns = layout_of (describe_columns 0 columns)
