-- ===== src/Pst/Format.antt =====
-- src/pst/pst_format.h: the constants, the packed identifiers and the byte-order helpers of the
-- Unicode PST format. A byte is a number below 256, a buffer a list of bytes.
pub mod PropType
pub mod Ids
pub mod Endian
pub mod Align
pub mod Buffer
use imap2pst.Base.{
  ℕ, zero, suc, ◌+◌, ◌-◌, ◌*◌, ◌/◌, ◌%◌, ◌^◌, bit_and, bit_or, bit_xor, Bool, not, ◌&&◌, ◌||◌, List,
  [], ◌∷◌, ◌++◌, ◌==◌, leb, if◌then◌else◌, u8, u16, u32, u64, ◌<<<◌, ◌>>>◌, slice, copy_at,
}

abbrev pub page_size : ℕ
page_size = 512

abbrev pub block_align : ℕ
block_align = 64

-- 8192 less the block trailer
abbrev pub max_block_data : ℕ
max_block_data = 8176

abbrev pub header_size : ℕ
header_size = 564

abbrev pub dlist_pos : ℕ
dlist_pos = 0x4200

abbrev pub first_amap_pos : ℕ
first_amap_pos = 0x4400

abbrev pub first_pmap_pos : ℕ
first_pmap_pos = 0x4600

abbrev pub first_data_pos : ℕ
first_data_pos = 0x4800

-- One AMap page maps 496 * 8 * 64 bytes.
abbrev pub amap_span : ℕ
amap_span = 496 * 8 * 64

-- One PMap page maps 496 * 8 * 512 bytes.
abbrev pub pmap_span : ℕ
pmap_span = 496 * 8 * 512

-- `makeNid`
unfoldable pub make_nid : ℕ → ℕ → ℕ
make_nid type index = bit_or (u32 (index <<< 5)) (bit_and type 0x1F)

-- `nidType`
unfoldable pub nid_type : ℕ → ℕ
nid_type nid = bit_and nid 0x1F

-- `nidIndex`
unfoldable pub nid_index : ℕ → ℕ
nid_index nid = nid >>> 5

-- `makeBid`
unfoldable pub make_bid : ℕ → Bool → ℕ
make_bid index internal = bit_or (u64 (index <<< 2)) (if internal then 2 else 0)

-- `bidIsInternal`
unfoldable pub bid_is_internal : ℕ → Bool
bid_is_internal bid = not (bit_and bid 2 == 0)

-- `makeHid`
unfoldable pub make_hid : ℕ → ℕ → ℕ
make_hid block_index alloc_index = bit_or (u32 (block_index <<< 16)) (u32 (alloc_index <<< 5))

-- `hidAllocIndex`
unfoldable pub hid_alloc_index : ℕ → ℕ
hid_alloc_index hid = bit_and (hid >>> 5) 0x7FF

-- `hidBlockIndex`
unfoldable pub hid_block_index : ℕ → ℕ
hid_block_index hid = u16 (hid >>> 16)

-- `hnidIsHid`
unfoldable pub hnid_is_hid : ℕ → Bool
hnid_is_hid v = bit_and v 0x1F == 0

-- `makeTag`, `tagId` and `tagType` of prop_tags.h
unfoldable pub make_tag : ℕ → ℕ → ℕ
make_tag id type = bit_or (u32 (id <<< 16)) type

unfoldable pub tag_id : ℕ → ℕ
tag_id t = u16 (t >>> 16)

unfoldable pub tag_type : ℕ → ℕ
tag_type t = bit_and t 0xFFFF

-- `fixedPropSize`: 0 where the width varies.
unfoldable pub fixed_prop_size : ℕ → ℕ
fixed_prop_size t =
    if t == PropType.short
    then 2
    else if t == PropType.boolean
    then 1
    else if t == PropType.long || t == PropType.floating || t == PropType.error
    then 4
    else if t == PropType.double
        || t == PropType.currency
        || t == PropType.app_time
        || t == PropType.long_long
        || t == PropType.systime
    then 8
    else 0

-- `propIsInline`
unfoldable pub prop_is_inline : ℕ → Bool
prop_is_inline t = let n = fixed_prop_size t in not (n == 0) && leb n 4

-- The loop of `put32` and its kin: the byte `v >> 8 * i` for each `i` from `i` on.
abbrev pub le_bytes : ℕ → ℕ → ℕ → List ℕ
le_bytes zero i v = []
le_bytes (suc left) i v = u8 (v >>> (8 * i)) ∷ le_bytes left (i + 1) v

abbrev pub put8 : List ℕ → ℕ → List ℕ
put8 b v = b ++ (u8 v ∷ [])

unfoldable pub put16 : List ℕ → ℕ → List ℕ
put16 b v = b ++ (u8 v ∷ u8 (v >>> 8) ∷ [])

unfoldable pub put32 : List ℕ → ℕ → List ℕ
put32 b v = b ++ le_bytes 4 0 v

unfoldable pub put64 : List ℕ → ℕ → List ℕ
put64 b v = b ++ le_bytes 8 0 v

abbrev pub put_bytes : List ℕ → List ℕ → List ℕ
put_bytes b p = b ++ p

unfoldable pub poke16 : List ℕ → ℕ → ℕ → List ℕ
poke16 p o v = copy_at p o (u8 v ∷ u8 (v >>> 8) ∷ [])

unfoldable pub poke32 : List ℕ → ℕ → ℕ → List ℕ
poke32 p o v = copy_at p o (le_bytes 4 0 v)

unfoldable pub poke64 : List ℕ → ℕ → ℕ → List ℕ
poke64 p o v = copy_at p o (le_bytes 8 0 v)

-- The loop of `peek32` and `peek64`, from the last byte to the first: `v = (v << 8) | p[i]`
-- in an integer of `w` bits.
abbrev pub peek_loop : ℕ → List ℕ → ℕ
peek_loop w [] = 0
peek_loop w (b ∷ bs) = bit_or (peek_loop w bs <<< 8 % 2 ^ w) b

-- A read past the end is undefined in the source; here the missing bytes are left out.
unfoldable pub peek16 : List ℕ → ℕ → ℕ
peek16 p o = peek_loop 16 (slice p o 2)

unfoldable pub peek32 : List ℕ → ℕ → ℕ
peek32 p o = peek_loop 32 (slice p o 4)

unfoldable pub peek64 : List ℕ → ℕ → ℕ
peek64 p o = peek_loop 64 (slice p o 8)

-- `alignUp`
unfoldable pub align_up : ℕ → ℕ → ℕ
align_up v a = u64 (u64 (v + a + (2 ^ 64 - 1)) / a * a)

-- `computeSig`: both arguments are cut to 32 bits, mixed, and folded to 16.
unfoldable pub compute_sig : ℕ → ℕ → ℕ
compute_sig ib bid = let v = bit_xor (u32 bid) (u32 ib) in u16 (bit_xor (v >>> 16) v)
