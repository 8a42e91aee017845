-- ===== src/Pst/Ndb/Space/Allocate.antt =====
-- What a call of `allocate` or `allocatePage` of src/pst/ndb.cpp gives.
use imap2pst.Base.{
  ℕ, ◌+◌, ◌-◌, ◌*◌, ◌/◌, ◌%◌, ◌^◌, ◌≤◌, ◌<◌, ◌≡◌, refl, subst, true, arith, Bool-cases, inl, inr,
  leb, All, some,
}
use imap2pst.Pst.Format.{
  page_size, block_align, first_amap_pos, first_data_pos, amap_span, align_up,
}
use imap2pst.Pst.Format.Align.{align_up_64, align_up_512}
use imap2pst.Pst.Ndb.State.{NdbWriter, ok}
use imap2pst.Pst.Ndb.Space.{
  is_reserved_page, find_space, allocate_fuel, mark_allocated, Maps, allocate, allocate_page,
}
use imap2pst.Pst.Ndb.Space.Placement.{Meets, clash-none, IsPlaced, find_space-IsPlaced}
use imap2pst.Pst.Ndb.Space.LastMap.{KeepsLast, mark_allocated-KeepsLast}
use imap2pst.Pst.Ndb.Space.Growth.{
  IsMap, is_marked, Grows, mark_allocated-Grows, mark_allocated_marks,
}

-- The part of the writer's state that space management keeps. The bound leaves room for the
-- positions to be computed in 64 bits.
pub record IsSpace (w : NdbWriter) : Type 0 where
  pub behind : first_data_pos ≤ w.cursor
  pub aligned : w.cursor % block_align ≡ 0
  pub small : w.cursor < 2 ^ 60
  pub maps : All IsMap w.amaps

-- The writer `w'` has come from `w` by giving out `size` bytes at `ib`.
pub record IsAllocated (w : NdbWriter) (size ib : ℕ) (w' : NdbWriter) : Type 0 where
  pub at_or_behind : w.cursor ≤ ib
  pub near : ib < w.cursor + 2 * (size + page_size)
  pub aligned : ib % block_align ≡ 0
  pub clear : (q : ℕ) → ¬ (Meets q ib size)
  pub marked : (pos : ℕ) → ib ≤ pos → pos < ib + size → is_marked w'.amaps pos ≡ true
  pub grows : Grows w.amaps w'.amaps
  pub last :
      KeepsLast
        (record { maps = w.amaps; last = w.last_amap_ib })
        (record { maps = w'.amaps; last = w'.last_amap_ib })
  pub rest : w' ≡ record w { cursor = ib + size; amaps = w'.amaps; last_amap_ib = w'.last_amap_ib }

span_start-reserved : (k : ℕ) → is_reserved_page (first_amap_pos + k * amap_span) ≡ true
unfolding is_reserved_page
span_start-reserved k = ground arith

-- A range that is clear of the fixed pages lies in one span.
in_one_span :
    (ib size : ℕ)
    → first_data_pos ≤ ib
    → ((q : ℕ) → ¬ (Meets q ib size))
    → (ib - first_amap_pos) % amap_span + size ≤ amap_span
in_one_span ib size lo clear =
    let k : ℕ = (ib - first_amap_pos) / amap_span + 1 in
    elim (Bool-cases (leb ((ib - first_amap_pos) % amap_span + size) amap_span)) [
      | inl fits ↦ ground arith
      | inr over ↦ absurd (
          clear (first_amap_pos + k * amap_span) (record {
            aligned = omega arith;
            reserved = span_start-reserved k;
            ends_behind = omega arith;
            starts_before = ground arith;
          }))
    ]

-- The writer after `size` bytes at `ib` are given out.
abbrev given : NdbWriter → ℕ → ℕ → NdbWriter
given w size ib =
    let m = mark_allocated ib size (record { maps = w.amaps; last = w.last_amap_ib }) in
    record w { cursor = ib + size; amaps = m.maps; last_amap_ib = m.last }

allocate_found :
    (cb size : ℕ) (w : NdbWriter) (ib : ℕ)
    → align_up cb block_align ≡ size
    → (find_space allocate_fuel w.cursor size ≡ some ib)
    → allocate cb w ≡ (ok ib, given w size ib)
unfolding allocate
allocate_found cb size w ib e =
    subst
      (λ n. find_space allocate_fuel w.cursor n ≡ some ib → allocate cb w ≡ (ok ib, given w n ib)) e
      (λ found. rw (found, allocate))

given-IsAllocated :
    (w : NdbWriter) (size ib : ℕ)
    → IsSpace w
    → size ≤ 8192
    → IsPlaced w.cursor size ib
    → IsAllocated w size ib (given w size ib)
given-IsAllocated w size ib s fits placed =
    let clear =
      clash-none ib size (omega (arith, placed.near, s.small)) (omega arith) placed.clear in
    let behind : first_data_pos ≤ ib = omega (arith, placed.at_or_behind, s.behind) in
    let aligned = placed.kept_alignment s.aligned in
    let m : Maps = record { maps = w.amaps; last = w.last_amap_ib } in
    record {
      at_or_behind = placed.at_or_behind;
      near = placed.near;
      aligned = aligned;
      clear = clear;
      marked = λ pos from to.
          mark_allocated_marks ib size pos m s.maps (omega arith) aligned (omega arith)
            (in_one_span ib size behind clear) from to;
      grows = mark_allocated-Grows ib size m s.maps;
      last = mark_allocated-KeepsLast ib size m;
      rest = refl;
    }

-- Every range of at most 8192 bytes that the writer asks for is found within the fuel: at or behind
-- the cursor, clear of all fixed pages, aligned, and marked in the allocation maps, where no earlier
-- mark is lost. The cursor moves behind the range, and the position of the last map is what it was if no
-- map was added, and else that of the last of the maps. Nothing else of the writer changes.
pub allocate_lem :
    (cb : ℕ) (w : NdbWriter)
    → IsSpace w
    → cb ≤ 8192
    → (ib : ℕ) × (w' : NdbWriter) × (allocate cb w ≡ (ok ib, w'))
      × IsAllocated w (align_up cb block_align) ib w'
allocate_lem cb w s fits =
    let size : ℕ = align_up cb block_align in
    let rounded : size ≤ 8192 = omega (arith, align_up_64 cb (omega arith)) in
    let (ib, found, placed) = find_space-IsPlaced w.cursor size s.behind s.small rounded in
    (
      ib,
      given w size ib,
      allocate_found cb size w ib refl found,
      given-IsAllocated w size ib s rounded placed,
    )

-- A page of 512 bytes is given out likewise, at an offset that is a multiple of its size.
pub allocate_page_lem :
    (w : NdbWriter)
    → IsSpace w
    → w.cursor + page_size < 2 ^ 60
    → (ib : ℕ) × (w' : NdbWriter) × (allocate_page w ≡ (ok ib, w'))
      × (ib % page_size ≡ 0)
      × IsAllocated (record w { cursor = align_up w.cursor page_size }) page_size ib w'
unfolding allocate_page
allocate_page_lem w s room =
    let c : ℕ = align_up w.cursor page_size in
    let up : c ≡ (w.cursor + 511) / 512 * 512 = align_up_512 w.cursor (omega arith) in
    let v : NdbWriter = record w { cursor = c } in
    let at_page : IsSpace v = record {
      behind = omega (arith, s.behind);
      aligned = omega arith;
      small = omega arith;
      maps = s.maps;
    } in
    let (ib, found, placed) =
      find_space-IsPlaced c page_size at_page.behind at_page.small (omega arith) in
    (
      ib,
      given v page_size ib,
      allocate_found page_size page_size v ib align_up_page found,
      placed.kept_page (omega arith),
      given-IsAllocated v page_size ib at_page (omega arith) placed,
    )
  where
    align_up_page : align_up page_size block_align ≡ page_size
    align_up_page = omega (arith, align_up_64 page_size (omega arith))
