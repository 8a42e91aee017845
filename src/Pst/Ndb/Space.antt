-- ===== src/Pst/Ndb/Space.antt =====
-- Space management of src/pst/ndb.cpp: the bump allocator that steps over the fixed pages, and
-- the allocation maps.
pub mod Placement
pub mod Bitmap
pub mod Growth
pub mod LastMap
pub mod Allocate
use imap2pst.Base.{
  ℕ, zero, suc, ◌+◌, ◌-◌, ◌*◌, ◌/◌, ◌%◌, ◌^◌, List, [], ◌∷◌, ◌++◌, Bool, true, false, ◌&&◌, ◌||◌,
  ltb, leb, ◌==◌, if◌then◌else◌, length, get_or, set, replicate, Option, none, some, bit_and,
  bit_or, u8, ◌>>>◌,
}
use imap2pst.Pst.Format.{
  page_size, block_align, dlist_pos, first_amap_pos, first_pmap_pos, amap_span, pmap_span, align_up,
}
use imap2pst.Pst.Ndb.State.{NdbWriter, M, Result, ok, err, PstError, unfinished}

-- `isReservedPage`
unfoldable pub is_reserved_page : ℕ → Bool
is_reserved_page ib =
    if ib == dlist_pos
    then true
    else if ltb ib first_amap_pos
    then false
    else if (ib - first_amap_pos) % amap_span == 0
    then true
    else leb first_pmap_pos ib && (ib - first_pmap_pos) % pmap_span == 0

-- The inner loop of `allocate`, over the aligned positions `p` that are left: the end of the first
-- reserved page that the candidate range meets.
unfoldable pub clash_from : ℕ → ℕ → ℕ → Option ℕ
clash_from zero p cursor = none
clash_from (suc left) p cursor =
    let rest = clash_from left (p + page_size) cursor in
    if leb (p + page_size) cursor
    then rest
    else if is_reserved_page p
    then some (p + page_size)
    else rest

-- Its range: `p < cursor + cb` in steps of a page, from `cursor & ~(kPageSize - 1)` on.
unfoldable pub clash : ℕ → ℕ → Option ℕ
clash cursor cb =
    let first = bit_and cursor (2 ^ 64 - page_size) in
    clash_from ((cursor + cb - first + (page_size - 1)) / page_size) first cursor

-- The outer loop: where the range of `cb` bytes goes. `none` when the fuel is used up.
unfoldable pub find_space : ℕ → ℕ → ℕ → Option ℕ
find_space zero cursor cb = none
find_space (suc fuel) cursor cb = elim (clash cursor cb) [
  | none ↦ some cursor
  | some next ↦ find_space fuel next cb
]

-- The rounds of `find_space` that a range of at most 8192 bytes can need: one for an AMap page,
-- one for the PMap page behind it, and one that finds room.
abbrev pub allocate_fuel : ℕ
allocate_fuel = 3

abbrev pub zero_map : List ℕ
zero_map = replicate 496 0

-- The loop of `markAllocated`: `left` bits from `bit` on, until they spill over the map's end.
unfoldable pub mark_bits : ℕ → ℕ → List ℕ → List ℕ
mark_bits zero bit bits = bits
mark_bits (suc left) bit bits =
    let rest =
      mark_bits left (suc bit)
        (set bits (bit / 8) (bit_or (get_or bits (bit / 8) 0) (0x80 >>> (bit % 8)))) in
    if leb (length bits) (bit / 8) then bits else rest

-- The maps and the position of the last one: `amaps_` and `last_amap_ib_`.
pub record Maps : Type 0 where
  pub maps : List (List ℕ)
  pub last : ℕ

-- `markAllocated`, over the `ensureAMapCount` that it calls.
unfoldable pub mark_over : (ℕ → Maps → Maps) → ℕ → ℕ → Maps → Maps
mark_over ensure ib cb m =
    if ltb ib first_amap_pos
    then m
    else (let map = (ib - first_amap_pos) / amap_span in
        let m' = ensure (map + 1) m in
        let base = first_amap_pos + map * amap_span in
        record m' {
          maps = set m'.maps map (
              mark_bits (align_up cb block_align / block_align) ((ib - base) / block_align)
                (get_or m'.maps map []));
        })

-- The PMap pages from `p` on that lie inside the span of the map at `amap_ib`.
unfoldable pub mark_pmaps : (ℕ → Maps → Maps) → ℕ → ℕ → ℕ → Maps → Maps
mark_pmaps ensure zero p amap_ib m = m
mark_pmaps ensure (suc left) p amap_ib m =
    mark_pmaps ensure left (p + pmap_span) amap_ib
      (if leb amap_ib p then mark_over ensure p page_size m else m)

-- One round of the loop of `ensureAMapCount`.
unfoldable pub add_map : (ℕ → Maps → Maps) → Maps → Maps
add_map ensure m =
    let index = length m.maps in
    let amap_ib = first_amap_pos + index * amap_span in
    let m' =
      mark_over ensure amap_ib page_size
        (record { maps = m.maps ++ (zero_map ∷ []); last = amap_ib }) in
    if index == 0
    then mark_over ensure first_pmap_pos page_size m'
    else mark_pmaps ensure ((amap_ib + amap_span - first_pmap_pos + (pmap_span - 1)) / pmap_span)
        first_pmap_pos amap_ib m'

-- `ensureAMapCount`, on fuel: `markAllocated` calls it in turn, with a map that is there by then.
unfoldable pub ensure_amap_count : ℕ → ℕ → Maps → Maps
ensure_amap_count zero n m = m
ensure_amap_count (suc fuel) n m = elim (ltb (length m.maps) n) [
  | true ↦ ensure_amap_count fuel n (add_map (ensure_amap_count fuel) m)
  | false ↦ m
]

-- `markAllocated`. A call for a map adds as many maps as are missing, so that its number plus one
-- is enough fuel.
unfoldable pub mark_allocated : ℕ → ℕ → Maps → Maps
mark_allocated ib cb = mark_over (ensure_amap_count ((ib - first_amap_pos) / amap_span + 1)) ib cb

-- `allocate`
unfoldable pub allocate : ℕ → M ℕ
allocate cb w =
    let size = align_up cb block_align in
    elim (find_space allocate_fuel w.cursor size) [
      | none ↦ (err unfinished, w)
      | some ib ↦
          (let m = mark_allocated ib size (record { maps = w.amaps; last = w.last_amap_ib }) in
            (ok ib, record w { cursor = ib + size; amaps = m.maps; last_amap_ib = m.last }))
    ]

-- `allocatePage`
unfoldable pub allocate_page : M ℕ
allocate_page w = allocate page_size (record w { cursor = align_up w.cursor page_size })
