-- ===== src/Pst/Ndb/Finish.antt =====
-- The end of a file: `writeHeader` and `finish` of src/pst/ndb.cpp.
pub mod Header
pub mod Draft
pub mod NextNids
use imap2pst.Base.{
  ℕ, zero, suc, ◌+◌, ◌-◌, ◌*◌, List, [], ◌∷◌, Bool, true, false, ltb, leb, not, ◌&&◌, if◌then◌else◌,
  length, replicate, set, get_or, slice, copy_at, u32,
}
use imap2pst.Base.Sort.{sort_by}
use imap2pst.Pst.Format.{
  header_size, first_amap_pos, amap_span, make_bid, nid_type, nid_index, poke16, poke32, poke64,
}
use imap2pst.Pst.Crc.{compute_crc}
use imap2pst.Pst.Ndb.State.{
  NdbWriter, Stream, BbtEntry, NbtEntry, Bref, M, Result, ok, err, flush_failed, ◌>>=◌, ◌>>◌,
  return,
}
use imap2pst.Pst.Ndb.Blocks.{write_at}
use imap2pst.Pst.Ndb.Pages.{
  build_btree, emit_fixed_pages, ptype_bbt, ptype_nbt, size_bbt_entry, size_nbt_entry,
}

abbrev pub first_user_nid_index : ℕ
first_user_nid_index = 0x400

-- The loop over `nbt_` in `writeHeader`: the next free index for each node type.
unfoldable pub next_nids : List ℕ → List NbtEntry → List ℕ
next_nids next [] = next
next_nids next (n ∷ ns) =
    let t = nid_type n.nid in
    let candidate = u32 (nid_index n.nid + 1) in
    next_nids (if ltb (get_or next t 0) candidate then set next t candidate else next) ns

-- The loop that stores them, from the index `i` on.
unfoldable pub poke_nids : List ℕ → ℕ → List ℕ → List ℕ
poke_nids h i [] = h
poke_nids h i (n ∷ ns) = poke_nids (poke32 h (44 + i * 4) n) (i + 1) ns

-- The fields in front of ROOT.
unfoldable pub header_front : NdbWriter → List ℕ
header_front w =
    let h = poke32 (replicate header_size 0) 0 0x4E444221 in
    let h = poke16 (poke16 (poke16 h 8 0x4D53) 10 23) 12 19 in
    let h = poke64 (set (set h 14 0x01) 15 0x01) 24 0 in
    let h = poke32 (poke64 h 32 (make_bid w.next_bid_index false)) 40 1 in
    poke_nids h 0 (next_nids (replicate 32 first_user_nid_index) w.nbt)

-- ROOT, at the offset 180.
unfoldable pub header_root : NdbWriter → Bref → Bref → List ℕ → List ℕ
header_root w nbt bbt h =
    let h = poke64 (poke64 (poke32 h 180 0) 184 w.file_end) 192 w.last_amap_ib in
    let h = poke64 (poke64 h 200 w.amap_free) 208 w.pmap_free in
    let h = poke64 (poke64 (poke64 (poke64 h 216 nbt.bid) 224 nbt.ib) 232 bbt.bid) 240 bbt.ib in
    poke16 (set (set h 248 0x02) 249 0x00) 250 0

-- The fields behind it.
unfoldable pub header_back : NdbWriter → List ℕ → List ℕ
header_back w h =
    let h = copy_at (copy_at h 256 (replicate 128 0xFF)) 384 (replicate 128 0xFF) in
    poke64 (set (set h 512 0x80) 513 0x00) 516 (make_bid w.next_bid_index false)

-- `dwCRCFull`, then `dwCRCPartial`.
unfoldable pub seal_header : List ℕ → List ℕ
seal_header h =
    let h = poke32 h 524 (compute_crc 0 (slice h 8 516)) in
    poke32 h 4 (compute_crc 0 (slice h 8 471))

-- The bytes that `writeHeader` writes.
unfoldable pub header_bytes : NdbWriter → Bref → Bref → List ℕ
header_bytes w nbt bbt = seal_header (header_back w (header_root w nbt bbt (header_front w)))

-- `writeHeader`
unfoldable pub write_header : Bref → Bref → M (Unit {0})
write_header nbt bbt w = write_at 0 (header_bytes w nbt bbt) w

-- What `finish` has `buildBTree` write for an entry of the NBT, and of the BBT.
unfoldable pub write_nbt_entry : List ℕ → ℕ → NbtEntry → List ℕ
write_nbt_entry page o e =
    poke32
      (poke32 (poke64 (poke64 (poke64 page o e.nid) (o + 8) e.block) (o + 16) e.sub) (o + 24)
        e.parent)
      (o + 28) 0

unfoldable pub write_bbt_entry : List ℕ → ℕ → BbtEntry → List ℕ
write_bbt_entry page o e =
    poke32 (poke16 (poke16 (poke64 (poke64 page o e.bid) (o + 8) e.ib) (o + 16) e.cb) (o + 18) 2)
      (o + 20) 0

-- The end of the file at the end of an allocation map's span, and zeros up to there.
unfoldable pub pad_file : M (Unit {0})
pad_file w =
    let whole = first_amap_pos + length w.amaps * amap_span in
    let file_end = if ltb whole w.cursor then w.cursor else whole in
    let w' = record w { file_end = file_end } in
    if ltb w.cursor file_end
    then write_at w.cursor (replicate (file_end - w.cursor) 0) w'
    else (ok tt, w')

-- `out_.flush()`, and the test behind it.
unfoldable pub flush : M (Unit {0})
flush w =
    let good = w.out.good && not (w.out.fails (length w.out.writes)) in
    (if good then ok tt else err flush_failed, record w { out = record w.out { good = good } })

-- `finish`
unfoldable pub finish : M (Unit {0})
finish w =
    if w.finished
    then (ok tt, w)
    else (do
      nbt_root ←
          build_btree ptype_nbt size_nbt_entry (λ (e : NbtEntry). e.nid) write_nbt_entry
            (sort_by (λ e. e.nid) w.nbt)
      bbt_root ←
          build_btree ptype_bbt size_bbt_entry (λ (e : BbtEntry). e.bid) write_bbt_entry
            (sort_by (λ e. e.bid) w.bbt)
      pad_file
      emit_fixed_pages
      write_header nbt_root bbt_root
      flush)
        (record w {
          finished = true;
          bbt = sort_by (λ e. e.bid) w.bbt;
          nbt = sort_by (λ e. e.nid) w.nbt;
        })
