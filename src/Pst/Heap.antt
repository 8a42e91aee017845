-- ===== src/Pst/Heap.antt =====
-- The heap on a node of src/pst/heap.cpp: allocations in blocks, patches, and the stream that is written.
pub mod Hid
pub mod Place
pub mod Alloc
pub mod Patch
pub mod Bth
use imap2pst.Base.{
  ℕ, zero, suc, ◌+◌, ◌-◌, ◌*◌, ◌/◌, ◌%◌, List, [], ◌∷◌, ◌++◌, Bool, true, false, not, ◌&&◌, ◌||◌,
  Option, none, some, ltb, leb, ◌==◌, if◌then◌else◌, length, get_or, get_elem?, set, replicate,
  copy_at, bit_and, bit_or, u8, u16, ◌<<<◌,
}
use imap2pst.Pst.Format.{
  max_block_data, align_up, make_hid, hid_block_index, hid_alloc_index, poke16, poke32,
}
use imap2pst.Pst.Ndb.State.{
  Result, ok, err, heap_alloc_too_large, heap_too_many_blocks, patch_unknown_hid,
  patch_changes_size,
}

-- `HeapNode::Block`
pub record Block : Type 0 where
  pub items : List (List ℕ)
  pub used : ℕ

pub record HeapNode : Type 0 where
  pub client_sig : ℕ
  pub user_root : ℕ
  pub blocks : List Block

abbrev pub empty_block : Block
empty_block = record { items = []; used = 0 }

-- The constructor
abbrev pub new_heap : ℕ → HeapNode
new_heap client_sig = record { client_sig = client_sig; user_root = 0; blocks = empty_block ∷ [] }

-- `setUserRoot`
abbrev pub set_user_root : ℕ → HeapNode → HeapNode
set_user_root hid h = record h { user_root = hid }

-- `fillLevelCode`
unfoldable pub fill_level_code : ℕ → ℕ
fill_level_code free =
    if leb 3584 free
    then 0x0
    else if leb 2560 free
    then 0x1
    else if leb 2048 free
    then 0x2
    else if leb 1792 free
    then 0x3
    else if leb 1536 free
    then 0x4
    else if leb 1280 free
    then 0x5
    else if leb 1024 free
    then 0x6
    else if leb 768 free
    then 0x7
    else if leb 512 free
    then 0x8
    else if leb 256 free
    then 0x9
    else 0xF

-- `pageMapSize`
abbrev pub page_map_size : ℕ → ℕ
page_map_size alloc_count = 4 + 2 * (alloc_count + 1)

-- `isBitmapBlock`
unfoldable pub is_bitmap_block : ℕ → Bool
is_bitmap_block i = leb 8 i && (i - 8) % 128 == 0

-- `blockHeaderSize`
unfoldable pub block_header_size : ℕ → ℕ
block_header_size i = if i == 0 then 12 else if is_bitmap_block i then 66 else 2

-- `maxAllocSize`
abbrev pub max_alloc_size : ℕ
max_alloc_size = max_block_data - 66 - page_map_size 1 - 1

-- `fits`
unfoldable pub fits : HeapNode → ℕ → ℕ → Bool
fits h i len =
    let b = get_or h.blocks i empty_block in
    leb (block_header_size i + b.used + len + page_map_size (length b.items + 1) + 1) max_block_data

-- The end of `alloc`: the allocation goes behind the others of the block `i`.
unfoldable pub place : ℕ → List ℕ → HeapNode → Result ℕ × HeapNode
place i bytes h =
    let b = get_or h.blocks i empty_block in
    let b' : Block = record { items = b.items ++ (bytes ∷ []); used = b.used + length bytes } in
    (ok (make_hid (u16 i) (u16 (length b'.items))), record h { blocks = set h.blocks i b' })

-- `emplace_back` of a block
abbrev pub add_block : HeapNode → HeapNode
add_block h = record h { blocks = h.blocks ++ (empty_block ∷ []) }

-- `alloc`
unfoldable pub alloc : List ℕ → HeapNode → Result ℕ × HeapNode
alloc bytes h =
    let i = length h.blocks - 1 in
    let i' = length (add_block h).blocks - 1 in
    if ltb max_alloc_size (length bytes)
    then (err heap_alloc_too_large, h)
    else if not (fits h i (length bytes)) || leb 2047 (length (get_or h.blocks i empty_block).items)
    then (if ltb 0xFFFF i'
        then (err heap_too_many_blocks, add_block h)
        else place i' bytes (add_block h))
    else place i bytes h

-- `patch`, of the allocation `index` of the block `block`.
unfoldable pub patch_at : ℕ → ℕ → List ℕ → HeapNode → Result (Unit {0}) × HeapNode
patch_at block index bytes h =
    let b = get_or h.blocks block empty_block in
    if leb (length h.blocks) block || (index == 0 || ltb (length b.items) index)
    then (err patch_unknown_hid, h)
    else if not (length (get_or b.items (index - 1) []) == length bytes)
    then (err patch_changes_size, h)
    else (
      ok tt,
      record h { blocks = set h.blocks block (record b { items = set b.items (index - 1) bytes }) },
    )

-- `patch`
unfoldable pub patch : ℕ → List ℕ → HeapNode → Result (Unit {0}) × HeapNode
patch hid bytes h = patch_at (hid_block_index hid) (hid_alloc_index hid) bytes h

-- The offsets of a block's allocations from `off` on, and of their end.
unfoldable pub offsets_from : ℕ → List (List ℕ) → List ℕ
offsets_from off [] = u16 off ∷ []
offsets_from off (item ∷ items) = u16 off ∷ offsets_from (off + length item) items

unfoldable pub end_from : ℕ → List (List ℕ) → ℕ
end_from off [] = off
end_from off (item ∷ items) = end_from (off + length item) items

-- The loop over `rgbFillLevel`: the nibbles from `k` on.
unfoldable pub fill_nibbles : ℕ → ℕ → ℕ → ℕ → List ℕ → List ℕ
fill_nibbles zero k nblocks free fill = fill
fill_nibbles (suc left) k nblocks free fill =
    let code = if ltb k nblocks then (if k == 0 then fill_level_code free else 0x0) else 0xF in
    let old = get_or fill (k / 2) 0 in
    let new =
      if k % 2 == 0
      then bit_or (bit_and old 0xF0) code
      else u8 (bit_or (bit_and old 0x0F) (code <<< 4)) in
    fill_nibbles left (k + 1) nblocks free (set fill (k / 2) new)

-- The header of the block `i`.
unfoldable pub put_block_header : HeapNode → ℕ → ℕ → ℕ → List ℕ → List ℕ
put_block_header h i map_at free blk =
    if i == 0
    then (let blk = set (set (poke16 blk 0 (u16 map_at)) 2 0xEC) 3 h.client_sig in
        copy_at (poke32 blk 4 h.user_root) 8
          (fill_nibbles 8 0 (length h.blocks) free (replicate 4 0xFF)))
    else if is_bitmap_block i
    then copy_at (poke16 blk 0 (u16 map_at)) 2 (replicate 64 0xFF)
    else poke16 blk 0 (u16 map_at)

-- The loop that copies the allocations, each to its offset.
unfoldable pub copy_items : List ℕ → List (List ℕ) → List ℕ → List ℕ
copy_items offsets [] blk = blk
copy_items [] (item ∷ items) blk = blk
copy_items (o ∷ offsets) (item ∷ items) blk = copy_items offsets items (copy_at blk o item)

unfoldable pub count_freed : List (List ℕ) → ℕ
count_freed [] = 0
count_freed (item ∷ items) = u16 ((if length item == 0 then 1 else 0) + count_freed items)

unfoldable pub poke_offsets : ℕ → List ℕ → List ℕ → List ℕ
poke_offsets at [] blk = blk
poke_offsets at (o ∷ offsets) blk = poke_offsets (at + 2) offsets (poke16 blk at o)

-- The body of the loop of `serialize`: the block `i`.
unfoldable pub heap_block_bytes : HeapNode → ℕ → Block → List ℕ
heap_block_bytes h i b =
    let map_size = page_map_size (length b.items) in
    let offsets = offsets_from (block_header_size i) b.items in
    let off = end_from (block_header_size i) b.items in
    let last = i + 1 == length h.blocks in
    let map_at = if last then align_up off 2 else max_block_data - map_size in
    let size = if last then map_at + map_size else max_block_data in
    let blk = put_block_header h i map_at (map_at - off) (replicate size 0) in
    let blk = copy_items offsets b.items blk in
    let blk =
      poke16 (poke16 blk map_at (u16 (length b.items))) (map_at + 2) (count_freed b.items) in
    poke_offsets (map_at + 4) offsets blk

unfoldable pub serialize_from : HeapNode → ℕ → List Block → List ℕ
serialize_from h i [] = []
serialize_from h i (b ∷ bs) = heap_block_bytes h i b ++ serialize_from h (i + 1) bs

-- `serialize`
unfoldable pub serialize : HeapNode → List ℕ
serialize h = serialize_from h 0 h.blocks
