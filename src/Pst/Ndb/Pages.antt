-- ===== src/Pst/Ndb/Pages.antt =====
-- The pages of src/pst/ndb.cpp: B-tree pages and the trees made of them, the fixed pages, the header, and
-- `finish`.
pub mod Page
use imap2pst.Base.{
  ℕ, zero, suc, ◌+◌, ◌-◌, ◌*◌, ◌/◌, min, List, [], ◌∷◌, ◌++◌, Bool, true, false, not, ltb, leb,
  ◌==◌, if◌then◌else◌, length, take, drop, replicate, set, get_or, slice, copy_at, u8, u32, u64,
  bit_and, ◌>>>◌,
}
use imap2pst.Pst.Format.{
  page_size, block_align, header_size, dlist_pos, first_amap_pos, first_pmap_pos, amap_span,
  pmap_span, make_bid, compute_sig, nid_type, nid_index, poke16, poke32, poke64,
}
use imap2pst.Pst.Crc.{compute_crc}
use imap2pst.Pst.Ndb.State.{
  NdbWriter, Stream, BbtEntry, NbtEntry, Bref, M, Result, ok, err, btree_too_deep, flush_failed,
  unfinished, ◌>>=◌, ◌>>◌, return, throw,
}
use imap2pst.Pst.Ndb.Space.{allocate_page}
use imap2pst.Pst.Ndb.Blocks.{write_at, next_bid}

abbrev pub ptype_bbt : ℕ
ptype_bbt = 0x80

abbrev pub ptype_nbt : ℕ
ptype_nbt = 0x81

abbrev pub ptype_pmap : ℕ
ptype_pmap = 0x83

abbrev pub ptype_amap : ℕ
ptype_amap = 0x84

abbrev pub ptype_dlist : ℕ
ptype_dlist = 0x86

abbrev pub size_bt_entry : ℕ
size_bt_entry = 24

abbrev pub size_bbt_entry : ℕ
size_bbt_entry = 24

abbrev pub size_nbt_entry : ℕ
size_nbt_entry = 32

-- `entriesPerPage`
abbrev pub entries_per_page : ℕ → ℕ
entries_per_page entry_size = 488 / entry_size

-- A page with its trailer: the type twice, the signature, the checksum of the first 496 bytes, the BID.
unfoldable pub page_bytes : List ℕ → ℕ → ℕ → ℕ → List ℕ
page_bytes page ptype sig bid =
    let typed = set (set page 496 ptype) 497 ptype in
    let signed = poke16 typed 498 sig in
    poke64 (poke32 signed 500 (compute_crc 0 (take 496 signed))) 504 bid

-- The fields behind the entries of a B-tree page.
unfoldable pub bt_fields : List ℕ → ℕ → ℕ → ℕ → List ℕ
bt_fields page entry_size count level =
    set (set (set (set page 488 (u8 count)) 489 (u8 (entries_per_page entry_size))) 490 entry_size)
      491 level

-- `finishBTPage`
unfoldable pub finish_bt_page : List ℕ → ℕ → ℕ → ℕ → ℕ → M Bref
finish_bt_page page page_type entry_size count level = do
  let fields = bt_fields page entry_size count level
  ib ← allocate_page
  bid ← next_bid false
  write_at ib (page_bytes fields page_type (compute_sig ib bid) bid)
  return (record { bid = bid; ib = ib })

-- The loop of `emitLeafPage` and of `emitBranchPage`, the entry `i` and those behind it.
unfoldable pub write_entries :
    {A : Type 0} → (List ℕ → ℕ → A → List ℕ) → ℕ → ℕ → List A → List ℕ → List ℕ
write_entries write_entry size i [] page = page
write_entries write_entry size i (e ∷ es) page =
    write_entries write_entry size (i + 1) es (write_entry page (i * size) e)

-- `emitLeafPage`
unfoldable pub emit_leaf_page : {A : Type 0} → ℕ → ℕ → (List ℕ → ℕ → A → List ℕ) → List A → M Bref
emit_leaf_page page_type entry_size write_entry es =
    finish_bt_page (write_entries write_entry entry_size 0 es (replicate page_size 0)) page_type
      entry_size (length es) 0

-- `BranchEntry`
pub record BranchEntry : Type 0 where
  pub key : ℕ
  pub bid : ℕ
  pub ib : ℕ

unfoldable pub write_branch : List ℕ → ℕ → BranchEntry → List ℕ
write_branch page o e = poke64 (poke64 (poke64 page o e.key) (o + 8) e.bid) (o + 16) e.ib

-- `emitBranchPage`
unfoldable pub emit_branch_page : ℕ → List BranchEntry → ℕ → M Bref
emit_branch_page page_type es level =
    finish_bt_page (write_entries write_branch size_bt_entry 0 es (replicate page_size 0)) page_type
      size_bt_entry (length es) level

-- The first loop of `buildBTree`, over the entries that are left: a leaf page for each `per_leaf`. The
-- fuel is the number of entries.
unfoldable pub emit_leaves :
    {A : Type 0} → ℕ → ℕ → ℕ → (A → ℕ) → (List ℕ → ℕ → A → List ℕ) → List A → M (List BranchEntry)
emit_leaves zero page_type entry_size key_of write_entry es = return []
emit_leaves (suc fuel) page_type entry_size key_of write_entry [] = return []
emit_leaves (suc fuel) page_type entry_size key_of write_entry (e ∷ more) =
    let es = e ∷ more in
    let per_leaf = entries_per_page entry_size in
    do
      child ← emit_leaf_page page_type entry_size write_entry (take per_leaf es)
      rest ← emit_leaves fuel page_type entry_size key_of write_entry (drop per_leaf es)
      return (record { key = key_of e; bid = child.bid; ib = child.ib } ∷ rest)

-- The inner loop of the second one: one level of branch pages.
unfoldable pub emit_branches : ℕ → ℕ → ℕ → List BranchEntry → M (List BranchEntry)
emit_branches zero page_type level es = return []
emit_branches (suc fuel) page_type level [] = return []
emit_branches (suc fuel) page_type level (e ∷ more) =
    let es = e ∷ more in
    let per_branch = entries_per_page size_bt_entry in
    do
      child ← emit_branch_page page_type (take per_branch es) level
      rest ← emit_branches fuel page_type level (drop per_branch es)
      return (record { key = e.key; bid = child.bid; ib = child.ib } ∷ rest)

-- `level_entries.front()`, which is undefined for an empty list; it is never empty there.
unfoldable pub front : List BranchEntry → Bref
front [] = record { bid = 0; ib = 0 }
front (e ∷ es) = record { bid = e.bid; ib = e.ib }

-- The second loop of `buildBTree`. Its level goes from 1 to 9 at most, so that 9 rounds are enough.
unfoldable pub grow_tree : ℕ → ℕ → ℕ → List BranchEntry → M Bref
grow_tree zero page_type level es = throw unfinished
grow_tree (suc fuel) page_type level es = elim (ltb 1 (length es)) [
  | true ↦ emit_branches (length es) page_type level es >>= λ next.
      if ltb 8 (level + 1) then throw btree_too_deep else grow_tree fuel page_type (level + 1) next
  | false ↦ return (front es)
]

-- `buildBTree`
unfoldable pub build_btree :
    {A : Type 0} → ℕ → ℕ → (A → ℕ) → (List ℕ → ℕ → A → List ℕ) → List A → M Bref
build_btree page_type entry_size key_of write_entry [] =
    emit_leaf_page page_type entry_size write_entry []
build_btree page_type entry_size key_of write_entry (e ∷ more) =
    emit_leaves (length (e ∷ more)) page_type entry_size key_of write_entry (e ∷ more)
    >>= grow_tree 9 page_type 1

-- `write_page` of `emitFixedPages`
unfoldable pub write_page : ℕ → ℕ → List ℕ → Bool → M (Unit {0})
write_page ib ptype body signed_page =
    let page = copy_at (replicate page_size 0) 0 (take (min 496 (length body)) body) in
    if signed_page
    then (next_bid false >>= λ bid. write_at ib (page_bytes page ptype (compute_sig ib bid) bid))
    else write_at ib (page_bytes page ptype 0 ib)

-- The bits of a byte that are zero, from the bit `b` on.
unfoldable pub free_bits : ℕ → ℕ → ℕ → ℕ
free_bits zero b byte = 0
free_bits (suc left) b byte =
    (if bit_and byte (0x80 >>> b) == 0 then 1 else 0) + free_bits left (b + 1) byte

unfoldable pub free_slots : List ℕ → ℕ
free_slots [] = 0
free_slots (byte ∷ bytes) = u32 (free_bits 8 0 byte + free_slots bytes)

unfoldable pub total_free : List (List ℕ) → ℕ
total_free [] = 0
total_free (map ∷ maps) = u64 (free_slots map * block_align + total_free maps)

unfoldable pub write_amaps : ℕ → List (List ℕ) → M (Unit {0})
write_amaps i [] = return tt
write_amaps i (map ∷ maps) =
    write_page (first_amap_pos + i * amap_span) ptype_amap map false >> write_amaps (i + 1) maps

unfoldable pub write_pmaps : ℕ → ℕ → M (Unit {0})
write_pmaps zero ib = return tt
write_pmaps (suc left) ib =
    write_page ib ptype_pmap (replicate 496 0xFF) false >> write_pmaps left (ib + pmap_span)

-- `emitFixedPages`: PMap pages from `kFirstPMapPos` to the end of the file.
unfoldable pub emit_fixed_pages : M (Unit {0})
emit_fixed_pages w =
    ((write_page dlist_pos ptype_dlist (replicate 496 0) true >> write_amaps 0 w.amaps)
        >> write_pmaps ((w.file_end - first_pmap_pos + (pmap_span - 1)) / pmap_span) first_pmap_pos)
      (record w { amap_free = total_free w.amaps; pmap_free = 0 })
