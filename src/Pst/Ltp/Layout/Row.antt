-- ===== src/Pst/Ltp/Layout/Row.antt =====
-- The row that `layout` of src/pst/ltp.cpp lays out.
use imap2pst.Base.{
  ℕ, suc, ◌+◌, ◌/◌, ◌%◌, ◌≤◌, ◌≡◌, ◌≢◌, refl, sym, ap, subst, ◌∙◌, arith, List, [], ◌∷◌, All, inl,
  inr, length,
}
use imap2pst.Pst.Format.{tag_type, fixed_prop_size}
use imap2pst.Pst.Ltp.Table.{tag_ltp_row_id, tag_ltp_row_ver}
use imap2pst.Pst.Ltp.Layout.{
  Column, Layout, column_width, describe_columns, place_width, place_columns, layout_of, layout,
}
use imap2pst.Pst.Ltp.Layout.Places.{
  IsPlaced, SameColumns, place_width-IsPass, IsPlaced-place_width, place_width-SameColumns,
}
use imap2pst.Pst.Ltp.Layout.Apart.{
  IsWidth, Ranges, AreRanges, ArePlaced, IsBetween, IsInRange, IsApart, AreApart, All-map, in_range,
  placed-AreApart,
}

column_width-IsWidth : (tag : ℕ) → IsWidth (column_width tag)
unfolding column_width fixed_prop_size IsWidth
column_width-IsWidth tag = ground arith

described-IsWidth :
    (i : ℕ) (tags : List ℕ) → All (λ (c : Column). IsWidth c.cb) (describe_columns i tags)
unfolding describe_columns
described-IsWidth i [] = tt
described-IsWidth i (tag ∷ tags) = (column_width-IsWidth tag, described-IsWidth (i + 1) tags)

length-describe_columns : (i : ℕ) (tags : List ℕ) → length (describe_columns i tags) ≡ length tags
unfolding describe_columns
length-describe_columns i [] = refl
length-describe_columns i (tag ∷ tags) = ap suc (length-describe_columns (i + 1) tags)

same_widths :
    (cs ds : List Column)
    → SameColumns cs ds
    → All (λ (c : Column). IsWidth c.cb) ds
    → All (λ (c : Column). IsWidth c.cb) cs
unfolding SameColumns
same_widths [] [] s h = tt
same_widths [] (d ∷ ds) s h = tt
same_widths (c ∷ cs) [] s h = elim s [ ]
same_widths (c ∷ cs) (d ∷ ds) s h = (subst IsWidth (sym s.0) h.0, same_widths cs ds s.2 h.1)

same_length : (cs ds : List Column) → SameColumns cs ds → length cs ≡ length ds
unfolding SameColumns
same_length [] [] s = refl
same_length [] (d ∷ ds) s = elim s [ ]
same_length (c ∷ cs) [] s = elim s [ ]
same_length (c ∷ cs) (d ∷ ds) s = ap suc (same_length cs ds s.2)

-- The bits of the columns in the map of present cells count up from `i`.
pub AreBitsFrom : ℕ → List Column → Type 0
AreBitsFrom i [] = Unit
AreBitsFrom i (c ∷ cs) = (c.ibit ≡ i) × AreBitsFrom (i + 1) cs

same_bits : (i : ℕ) (cs ds : List Column) → SameColumns cs ds → AreBitsFrom i ds → AreBitsFrom i cs
unfolding SameColumns AreBitsFrom
same_bits i [] [] s h = tt
same_bits i [] (d ∷ ds) s h = elim s [ ]
same_bits i (c ∷ cs) [] s h = elim s [ ]
same_bits i (c ∷ cs) (d ∷ ds) s h = (s.1 ∙ h.0, same_bits (i + 1) cs ds s.2 h.1)

described-AreBitsFrom :
    (i : ℕ) (tags : List ℕ) → i + length tags ≤ 256 → AreBitsFrom i (describe_columns i tags)
unfolding describe_columns AreBitsFrom
described-AreBitsFrom i [] h = tt
described-AreBitsFrom i (tag ∷ tags) h =
    (omega (arith, h), described-AreBitsFrom (i + 1) tags (omega (arith, h)))

-- A column inside the first `end` bytes of a row, at a multiple of its width.
pub IsInRow : ℕ → Column → Type 0
IsInRow end c = (c.ib + c.cb ≤ end) × (c.ib % c.cb ≡ 0)

-- What the passes give for the columns from the third on.
record IsLaidOut (cs : List Column) (l : Layout) : Type 0 where
  apart : AreApart l.cols
  inside : All (λ (c : Column). (8 ≤ c.ib) × IsInRow l.rgib_1b c) l.cols
  row : l.row_size ≡ l.rgib_1b + (length cs + 9) / 8
  count : length l.cols ≡ length cs
  start : 8 ≤ l.rgib_1b
  bits : (i : ℕ) → AreBitsFrom i cs → AreBitsFrom i l.cols

aligned : (c : Column) (w : ℕ) → c.cb ≡ w → c.ib % w ≡ 0 → c.ib % c.cb ≡ 0
aligned c w e h = ap (λ k. c.ib % k) e ∙ h

in_row :
    (r : Ranges) (c : Column)
    → AreRanges r
    → (8 ≤ r.lo8) × (r.lo8 % 8 ≡ 0) × (r.lo4 % 4 ≡ 0) × (r.lo2 % 2 ≡ 0)
    → (r.lo8 ≤ r.hi8) × (r.lo4 ≤ r.hi4) × (r.lo2 ≤ r.hi2) × (r.lo1 ≤ r.hi1)
    → IsInRange r c
    → (8 ≤ c.ib) × IsInRow r.hi1 c
unfolding IsInRange IsBetween IsInRow
in_row r c v m le (inl b) = (
  omega (arith, b.1),
  (omega (arith, b.0, b.2, v.eight, v.four, v.two), aligned c 8 b.0 (omega (arith, b.4, m.1))),
)
in_row r c v m le (inr (inl b)) = (
  omega (arith, b.1, v.eight, m.0, le.0),
  (omega (arith, b.0, b.2, v.four, v.two), aligned c 4 b.0 (omega (arith, b.4, m.2))),
)
in_row r c v m le (inr (inr (inl b))) = (
  omega (arith, b.1, v.eight, v.four, m.0, le.0, le.1),
  (omega (arith, b.0, b.2, v.two), aligned c 2 b.0 (omega (arith, b.4, m.3))),
)
in_row r c v m le (inr (inr (inr b))) = (
  omega (arith, b.1, v.eight, v.four, v.two, m.0, le.0, le.1, le.2),
  (omega (arith, b.0, b.2), aligned c 1 b.0 (omega arith)),
)

kept :
    (lo hi w v : ℕ) (p : ℕ × List Column)
    → w ≢ v
    → IsPlaced w lo hi p.1
    → IsPlaced w lo hi (place_width v p.0 p.1).1
kept lo hi w v p = IsPlaced-place_width w v p.0 lo hi p.1

place_columns-IsLaidOut :
    (cs : List Column)
    → All (λ (c : Column). IsWidth c.cb) cs
    → length cs ≤ 4000
    → IsLaidOut cs (place_columns cs)
unfolding place_columns
place_columns-IsLaidOut cs ws few =
    let p8 = place_width 8 8 cs in
    let p4 = place_width 4 p8.0 p8.1 in
    let p2 = place_width 2 p4.0 p4.1 in
    let p1 = place_width 1 p2.0 p2.1 in
    let s8 = place_width-IsPass 8 8 cs (omega (arith, few)) in
    let n8 : length p8.1 ≡ length cs = same_length p8.1 cs (place_width-SameColumns 8 8 cs) in
    let s4 = place_width-IsPass 4 p8.0 p8.1 (omega (arith, few, s8.upper, n8)) in
    let n4 : length p4.1 ≡ length p8.1 =
      same_length p4.1 p8.1 (place_width-SameColumns 4 p8.0 p8.1) in
    let s2 = place_width-IsPass 2 p4.0 p4.1 (omega (arith, few, s8.upper, s4.upper, n8, n4)) in
    let n2 : length p2.1 ≡ length p4.1 =
      same_length p2.1 p4.1 (place_width-SameColumns 2 p4.0 p4.1) in
    let s1 =
      place_width-IsPass 1 p2.0 p2.1
        (omega (arith, few, s8.upper, s4.upper, s2.upper, n8, n4, n2)) in
    let n1 : length p1.1 ≡ length p2.1 =
      same_length p1.1 p2.1 (place_width-SameColumns 1 p2.0 p2.1) in
    let r : Ranges = record {
      lo8 = 8;
      lo4 = p8.0;
      lo2 = p4.0;
      lo1 = p2.0;
      hi8 = p8.0;
      hi4 = p4.0;
      hi2 = p2.0;
      hi1 = p1.0;
    } in
    let v : AreRanges r = record { eight = omega arith; four = omega arith; two = omega arith } in
    let placed : ArePlaced r p1.1 = record {
      p8 =
          kept 8 p8.0 8 1 p2 (omega arith)
            (kept 8 p8.0 8 2 p4 (omega arith) (kept 8 p8.0 8 4 p8 (omega arith) s8.placed));
      p4 = kept p8.0 p4.0 4 1 p2 (omega arith) (kept p8.0 p4.0 4 2 p4 (omega arith) s4.placed);
      p2 = kept p4.0 p2.0 2 1 p2 (omega arith) s2.placed;
      p1 = s1.placed;
    } in
    let widths = same_widths p1.1 p2.1 (place_width-SameColumns 1 p2.0 p2.1) (
      same_widths p2.1 p4.1 (place_width-SameColumns 2 p4.0 p4.1) (
        same_widths p4.1 p8.1 (place_width-SameColumns 4 p8.0 p8.1)
          (same_widths p8.1 cs (place_width-SameColumns 8 8 cs) ws))) in
    record {
      apart = placed-AreApart r p1.1 v placed widths;
      inside =
          All-map
            (λ c.
              in_row r c v
                (
                  omega arith,
                  omega arith,
                  omega (arith, s8.step.1),
                  omega (arith, s8.step.1, s4.step.1),
                )
                (s8.lower, s4.lower, s2.lower, s1.lower))
            p1.1 (in_range r p1.1 placed widths);
      row = omega (arith, few, s8.upper, s4.upper, s2.upper, s1.upper, n8, n4, n2);
      count = n1 ∙ n2 ∙ n4 ∙ n8;
      start = omega (arith, s8.lower, s4.lower, s2.lower, s1.lower);
      bits = λ i h. same_bits i p1.1 p2.1 (place_width-SameColumns 1 p2.0 p2.1) (
          same_bits i p2.1 p4.1 (place_width-SameColumns 2 p4.0 p4.1) (
            same_bits i p4.1 p8.1 (place_width-SameColumns 4 p8.0 p8.1)
              (same_bits i p8.1 cs (place_width-SameColumns 8 8 cs) h)));
    }

pinned_width : (column_width tag_ltp_row_id ≡ 4) × (column_width tag_ltp_row_ver ≡ 4)
unfolding column_width fixed_prop_size tag_type
pinned_width = (refl, refl)

-- A row of `n` columns: no two share a byte, each ends before the map of present cells and stands at a multiple of
-- its width, each has its own bit of the map, in the order of the columns, and the map ends the row.
pub IsWholeRow : ℕ → Layout → Type 0
IsWholeRow n l =
    AreApart l.cols
    × All (IsInRow l.rgib_1b) l.cols
    × AreBitsFrom 0 l.cols
    × (length l.cols ≡ n)
    × (l.row_size ≡ l.rgib_1b + (n + 7) / 8)

-- In a row of a table with at most 253 columns beside the row's id and version (the table's header counts its columns
-- in one byte), no two columns share a byte, each one ends before the map of present cells and stands at a multiple of
-- its width, each has its own bit of the map, in the order of the columns, and the map has a bit for each and ends
-- the row.
pub layout-IsWholeRow :
    (tags : List ℕ)
    → length tags ≤ 253
    → IsWholeRow (length tags + 2) (layout (tag_ltp_row_id ∷ tag_ltp_row_ver ∷ tags))
unfolding layout layout_of describe_columns AreApart IsApart IsInRow IsWholeRow AreBitsFrom
layout-IsWholeRow tags few =
    let cs : List Column = describe_columns (0 + 1 + 1) tags in
    let n : length cs ≡ length tags = length-describe_columns (0 + 1 + 1) tags in
    let laid =
      place_columns-IsLaidOut cs (described-IsWidth (0 + 1 + 1) tags) (omega (arith, few, n)) in
    let cols : List Column = (place_columns cs).cols in
    let four = pinned_width in
    (
      (
        (
          inl (omega (arith, four.0)),
          All-map (λ c h. inl (omega (arith, four.0, h.0))) cols laid.inside,
        ),
        (All-map (λ c h. inl (omega (arith, four.1, h.0))) cols laid.inside, laid.apart),
      ),
      (
        (omega (arith, four.0, laid.start), ap (λ w. 0 % w) four.0),
        (
          (omega (arith, four.1, laid.start), ap (λ w. 4 % w) four.1),
          All-map (λ c h. h.1) cols laid.inside,
        ),
      ),
      (
        omega arith,
        (
          omega arith,
          laid.bits (0 + 1 + 1) (described-AreBitsFrom (0 + 1 + 1) tags (omega (arith, few))),
        ),
      ),
      omega (arith, laid.count, n),
      laid.row ∙ omega (arith, laid.count, n),
    )
