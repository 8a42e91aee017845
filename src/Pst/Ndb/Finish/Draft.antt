-- ===== src/Pst/Ndb/Finish/Draft.antt =====
-- The stages of the header that `writeHeader` of src/pst/ndb.cpp builds, up to its checksums.
use imap2pst.Base.{
  ℕ, ◌+◌, ◌*◌, ◌≤◌, ◌<◌, ◌≡◌, refl, ◌∙◌, arith, List, [], ◌∷◌, false, replicate, set, slice,
  copy_at, slice-copy_at_out, All-replicate, length-replicate,
}
use imap2pst.Pst.Format.{header_size, poke16, poke32, poke64, make_bid}
use imap2pst.Pst.Format.Endian.{IsByte, slice-poke16, slice-poke32, slice-poke64}
use imap2pst.Pst.Format.Buffer.{
  IsBuffer, poke16-IsBuffer, poke32-IsBuffer, poke64-IsBuffer, set-IsBuffer, copy_at-IsBuffer,
}
use imap2pst.Pst.Ndb.State.{NdbWriter, Bref}
use imap2pst.Pst.Ndb.Finish.{
  poke_nids, next_nids, first_user_nid_index, header_front, header_root, header_back, header_bytes,
}
use imap2pst.Pst.Ndb.Finish.Header.{IsHeader, seal_header-IsHeader}

-- A header that is not finished: its size, and the magic bytes at its start.
record IsDraft (h : List ℕ) : Type 0 where
  pub buffer : IsBuffer 564 h
  pub magic : slice h 0 4 ≡ 0x21 ∷ 0x42 ∷ 0x44 ∷ 0x4E ∷ []

-- What is written behind the magic bytes keeps them.
module _ (o : ℕ) (behind : 4 ≤ o) where
  at16 : (v : ℕ) {h : List ℕ} → IsDraft h → IsDraft (poke16 h o v)
  at16 v {h} d = record {
    buffer = poke16-IsBuffer 564 h o v d.buffer;
    magic = slice-poke16 h o v 0 4 (omega arith) ∙ d.magic;
  }

  at32 : (v : ℕ) {h : List ℕ} → IsDraft h → IsDraft (poke32 h o v)
  at32 v {h} d = record {
    buffer = poke32-IsBuffer 564 h o v d.buffer;
    magic = slice-poke32 h o v 0 4 (omega arith) ∙ d.magic;
  }

  at64 : (v : ℕ) {h : List ℕ} → IsDraft h → IsDraft (poke64 h o v)
  at64 v {h} d = record {
    buffer = poke64-IsBuffer 564 h o v d.buffer;
    magic = slice-poke64 h o v 0 4 (omega arith) ∙ d.magic;
  }

  at8 : (b : ℕ) → b < 256 → {h : List ℕ} → IsDraft h → IsDraft (set h o b)
  at8 b small {h} d = record {
    buffer = set-IsBuffer 564 h o b d.buffer small;
    magic = slice-copy_at_out (b ∷ []) h o 0 4 (omega arith) ∙ d.magic;
  }

  filled : (n b : ℕ) → b < 256 → {h : List ℕ} → IsDraft h → IsDraft (copy_at h o (replicate n b))
  filled n b small {h} d = record {
    buffer = copy_at-IsBuffer 564 h o (replicate n b) d.buffer (All-replicate IsByte n b small);
    magic = slice-copy_at_out (replicate n b) h o 0 4 (omega arith) ∙ d.magic;
  }

poke_nids-IsDraft : (ns : List ℕ) (i : ℕ) {h : List ℕ} → IsDraft h → IsDraft (poke_nids h i ns)
unfolding poke_nids
poke_nids-IsDraft [] i d = d
poke_nids-IsDraft (n ∷ ns) i d = poke_nids-IsDraft ns (i + 1) (at32 (44 + i * 4) (omega arith) n d)

first_magic : IsDraft (poke32 (replicate header_size 0) 0 0x4E444221)
unfolding poke32
first_magic = record {
  buffer = poke32-IsBuffer 564 (replicate header_size 0) 0 0x4E444221 (record {
    size = length-replicate {A = ℕ} 564 0;
    bytes = All-replicate IsByte 564 0 (omega arith);
  });
  magic = refl;
}

front-IsDraft : (w : NdbWriter) → IsDraft (header_front w)
unfolding header_front
front-IsDraft w =
    let numbers =
      at16 12 (omega arith) 19
        (at16 10 (omega arith) 23 (at16 8 (omega arith) 0x4D53 first_magic)) in
    let platform =
      at8 15 (omega arith) 0x01 (omega arith) (at8 14 (omega arith) 0x01 (omega arith) numbers) in
    let next =
      at64 32 (omega arith) (make_bid w.next_bid_index false) (at64 24 (omega arith) 0 platform) in
    poke_nids-IsDraft (next_nids (replicate 32 first_user_nid_index) w.nbt) 0
      (at32 40 (omega arith) 1 next)

root-IsDraft :
    (w : NdbWriter) (nbt bbt : Bref) {h : List ℕ} → IsDraft h → IsDraft (header_root w nbt bbt h)
unfolding header_root
root-IsDraft w nbt bbt d =
    let ends =
      at64 192 (omega arith) w.last_amap_ib
        (at64 184 (omega arith) w.file_end (at32 180 (omega arith) 0 d)) in
    let free = at64 208 (omega arith) w.pmap_free (at64 200 (omega arith) w.amap_free ends) in
    let nodes = at64 224 (omega arith) nbt.ib (at64 216 (omega arith) nbt.bid free) in
    let blocks = at64 240 (omega arith) bbt.ib (at64 232 (omega arith) bbt.bid nodes) in
    at16 250 (omega arith) 0
      (at8 249 (omega arith) 0x00 (omega arith) (at8 248 (omega arith) 0x02 (omega arith) blocks))

back-IsDraft : (w : NdbWriter) {h : List ℕ} → IsDraft h → IsDraft (header_back w h)
unfolding header_back
back-IsDraft w d =
    let maps =
      filled 384 (omega arith) 128 0xFF (omega arith)
        (filled 256 (omega arith) 128 0xFF (omega arith) d) in
    at64 516 (omega arith) (make_bid w.next_bid_index false)
      (at8 513 (omega arith) 0x00 (omega arith) (at8 512 (omega arith) 0x80 (omega arith) maps))

-- Whatever the writer's state and the roots of the two trees, the header is 564 bytes long, begins with the
-- magic bytes, and both of its checksums are those of the bytes that stand in it in the end.
pub header_bytes-IsHeader : (w : NdbWriter) (nbt bbt : Bref) → IsHeader (header_bytes w nbt bbt)
unfolding header_bytes
header_bytes-IsHeader w nbt bbt =
    let d = back-IsDraft w (root-IsDraft w nbt bbt (front-IsDraft w)) in
    seal_header-IsHeader (header_back w (header_root w nbt bbt (header_front w))) d.buffer d.magic
