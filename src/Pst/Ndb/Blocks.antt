-- ===== src/Pst/Ndb/Blocks.antt =====
-- The block store of src/pst/ndb.cpp: raw writes, blocks with their trailers, data trees.
pub mod Disk
pub mod Trailer
pub mod Store
pub mod Emit
pub mod Reader
pub mod XBlock
pub mod Leaves
pub mod Groups
pub mod Tree
pub mod Data
pub mod DataTree
pub mod Create
use imap2pst.Base.{
  ℕ, zero, suc, ◌+◌, ◌-◌, ◌*◌, ◌/◌, min, List, [], ◌∷◌, ◌++◌, Bool, true, false, not, ltb, leb,
  if◌then◌else◌, length, take, drop, replicate, copy_at, u16, u32, sub64,
}
use imap2pst.Pst.Format.{
  max_block_data, block_align, first_data_pos, align_up, make_bid, compute_sig, put8, put16, put32,
  put64, poke16, poke32, poke64,
}
use imap2pst.Pst.Crc.{compute_crc}
use imap2pst.Pst.Ndb.State.{
  NdbWriter, Stream, BbtEntry, SubnodeEntry, M, Result, ok, err, cannot_open, cannot_preallocate,
  short_write, block_too_large, data_tree_too_large, data_tree_too_deep, subnode_tree_too_deep,
  ◌>>=◌, ◌>>◌, return, throw,
}
use imap2pst.Pst.Ndb.Space.{allocate, ensure_amap_count}

-- One write to the stream: it fails once the stream is bad, or where the disk says so, and then
-- the stream is bad.
unfoldable pub stream_write : ℕ → List ℕ → Stream → Stream
stream_write ib bytes s =
    if not s.good
    then s
    else if s.fails (length s.writes)
    then record s { good = false }
    else record s { writes = record { ib = ib; bytes = bytes } ∷ s.writes }

-- `writeAt`
unfoldable pub write_at : ℕ → List ℕ → M (Unit {0})
write_at ib bytes w =
    let out = stream_write ib bytes w.out in
    (if out.good then ok tt else err short_write, record w { out = out })

-- The constructor: `opened` says whether the file could be opened, `fails` which writes to it fail.
unfoldable pub create : Bool → (ℕ → Bool) → Result NdbWriter
create opened fails =
    let out =
      stream_write 0 (replicate first_data_pos 0)
        (record { writes = []; good = true; fails = fails }) in
    let m = ensure_amap_count 1 1 (record { maps = []; last = 0x4400 }) in
    if not opened
    then err cannot_open
    else if not out.good
    then err cannot_preallocate
    else ok (record {
      out = out;
      cursor = first_data_pos;
      next_bid_index = 1;
      finished = false;
      bbt = [];
      nbt = [];
      amaps = m.maps;
      last_amap_ib = m.last;
      file_end = first_data_pos;
      amap_free = 0;
      pmap_free = 0;
    })

-- The bytes that `emitBlock` writes: the payload, padding, and the trailer in the last 16 bytes.
unfoldable pub block_bytes : List ℕ → ℕ → ℕ → ℕ → List ℕ
block_bytes payload total ib bid =
    let cb = length payload in
    let t = total - 16 in
    let buf = copy_at (replicate total 0) 0 payload in
    poke64
      (poke32 (poke16 (poke16 buf t (u16 cb)) (t + 2) (compute_sig ib bid)) (t + 4)
        (compute_crc 0 payload))
      (t + 8) bid

-- `next_bid_index_++`
unfoldable pub next_bid : Bool → M ℕ
next_bid internal w =
    (ok (make_bid w.next_bid_index internal), record w { next_bid_index = w.next_bid_index + 1 })

-- `bbt_.push_back`
unfoldable pub push_block : BbtEntry → M (Unit {0})
push_block e w = (ok tt, record w { bbt = w.bbt ++ (e ∷ []) })

-- `emitBlock`, behind the space for the block: its BID, its bytes and its entry.
unfoldable pub fill_block : List ℕ → Bool → ℕ → M ℕ
fill_block payload internal ib = do
  let cb = length payload
  let total = align_up (cb + 16) block_align
  bid ← next_bid internal
  write_at ib (block_bytes payload total ib bid)
  push_block (record { bid = bid; ib = ib; cb = u16 cb })
  return bid

-- `emitBlock`
unfoldable pub emit_block : List ℕ → Bool → M ℕ
emit_block payload internal =
    if ltb max_block_data (length payload)
    then throw block_too_large
    else allocate (align_up (length payload + 16) block_align) >>= fill_block payload internal

-- `for (Bid b : children) put64(buf, b)`
unfoldable pub put_bids : List ℕ → List ℕ → List ℕ
put_bids buf [] = buf
put_bids buf (b ∷ bs) = put_bids (put64 buf b) bs

-- The payload of `emitXBlock`.
unfoldable pub xblock_bytes : List ℕ → ℕ → ℕ → List ℕ
xblock_bytes children level total =
    put_bids (put32 (put16 (put8 (put8 [] 0x01) level) (u16 (length children))) total) children

-- `emitXBlock`
unfoldable pub emit_xblock : List ℕ → ℕ → ℕ → M ℕ
emit_xblock children level total = emit_block (xblock_bytes children level total) true

-- `writeLeafChunk`
unfoldable pub write_leaf_chunk : List ℕ → M ℕ
write_leaf_chunk chunk = emit_block chunk false

abbrev pub xblock_fanout : ℕ
xblock_fanout = (max_block_data - 8) / 8

-- The loop of `assembleDataTree` over the leaves that are left, `i` of them done: an XBLOCK for each
-- `kXBlockFanout`. The fuel is the number of leaves: a round takes at least one.
unfoldable pub emit_xblocks : ℕ → ℕ → List ℕ → ℕ → M (List ℕ)
emit_xblocks zero i leaves total = return []
emit_xblocks (suc fuel) i [] total = return []
emit_xblocks (suc fuel) i (leaf ∷ more) total =
    let leaves = leaf ∷ more in
    let n = min xblock_fanout (length leaves) in
    let covered = u32 (min (n * max_block_data) (sub64 total (i * max_block_data))) in
    do
      x ← emit_xblock (take n leaves) 1 covered
      xs ← emit_xblocks fuel (i + n) (drop n leaves) total
      return (x ∷ xs)

-- `assembleDataTree`
unfoldable pub assemble_data_tree : List ℕ → ℕ → M ℕ
assemble_data_tree [] total_bytes = emit_block [] false
assemble_data_tree (leaf ∷ []) total_bytes = return leaf
assemble_data_tree (a ∷ b ∷ more) total_bytes =
    let leaves = a ∷ b ∷ more in
    if ltb 0xFFFFFFFF total_bytes
    then throw data_tree_too_large
    else if leb (length leaves) xblock_fanout
    then emit_xblock leaves 1 (u32 total_bytes)
    else (do
      xblocks ← emit_xblocks (length leaves) 0 leaves total_bytes
      (if ltb xblock_fanout (length xblocks)
          then throw data_tree_too_deep
          else emit_xblock xblocks 2 (u32 total_bytes)))

-- The loop of `writeData` over the bytes that are left, a leaf for each `kMaxBlockData`. The fuel is
-- the number of bytes.
unfoldable pub write_leaves : ℕ → List ℕ → M (List ℕ)
write_leaves zero bytes = return []
write_leaves (suc fuel) [] = return []
write_leaves (suc fuel) (b ∷ more) =
    let bytes = b ∷ more in
    do
      leaf ← write_leaf_chunk (take max_block_data bytes)
      leaves ← write_leaves fuel (drop max_block_data bytes)
      return (leaf ∷ leaves)

-- `writeData`
unfoldable pub write_data : List ℕ → M ℕ
write_data bytes =
    if leb (length bytes) max_block_data
    then emit_block bytes false
    else (do leaves ← write_leaves (length bytes) bytes; assemble_data_tree leaves (length bytes))

-- `addNode`
unfoldable pub add_node : ℕ → ℕ → ℕ → ℕ → M (Unit {0})
add_node nid block sub parent w = (
  ok tt,
  record w {
    nbt = w.nbt ++ (record { nid = nid; block = block; sub = sub; parent = parent } ∷ []);
  },
)
