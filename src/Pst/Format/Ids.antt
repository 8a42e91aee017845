-- ===== src/Pst/Format/Ids.antt =====
-- The packed identifiers of pst_format.h and prop_tags.h: what is packed is read back.
use imap2pst.Base.{
  ℕ, ◌+◌, ◌*◌, ◌/◌, ◌%◌, ◌^◌, ◌<◌, ◌≡◌, Bool, true, arith, ap, ◌∙◌, bit_and, bit_or, u32, u64,
  ◌<<<◌, if◌then◌else◌,
}
use imap2pst.Base.Bits.{bit_or_fields, bit_and_mask, bit_and_even}
use imap2pst.Pst.Format.{
  make_nid, nid_type, nid_index, make_bid, bid_is_internal, make_hid, hid_alloc_index,
  hid_block_index, hnid_is_hid, make_tag, tag_id, tag_type,
}

pub make_nid_sum : (type index : ℕ) → make_nid type index ≡ index % 2 ^ 27 * 32 + type % 32
unfolding make_nid
make_nid_sum type index =
    let shifted : u32 (index <<< 5) ≡ index % 2 ^ 27 * 2 ^ 5 = omega arith in
    omega (
      arith,
      ap (λ (t : ℕ). bit_or t (bit_and type 0x1F)) shifted,
      bit_and_mask 5 type,
      bit_or_fields 5 (index % 2 ^ 27) (bit_and type 0x1F) (omega (arith, bit_and_mask 5 type)),
    )

-- An NID gives back its type and its index, where they fit into 5 and 27 bits.
pub nid_roundtrip :
    (type index : ℕ)
    → type < 32
    → index < 2 ^ 27
    → (nid_type (make_nid type index) ≡ type) × (nid_index (make_nid type index) ≡ index)
unfolding nid_type nid_index
nid_roundtrip type index ht hi = (
  omega (arith, make_nid_sum type index, bit_and_mask 5 (make_nid type index)),
  omega (arith, make_nid_sum type index),
)

pub make_hid_sum : (b a : ℕ) → b < 2 ^ 16 → a < 2 ^ 11 → make_hid b a ≡ b * 2 ^ 16 + a * 32
unfolding make_hid
make_hid_sum b a hb ha = omega (
  arith,
  ap (λ (t : ℕ). bit_or t (u32 (a <<< 5))) shifted,
  bit_or_fields 16 b (u32 (a <<< 5)) (omega arith),
)
  where
    shifted : u32 (b <<< 16) ≡ b * 2 ^ 16
    shifted = omega arith

-- An HID gives back its block and its allocation index, where they fit into 16 and 11 bits, and
-- reads as an HID, not as an NID.
pub hid_roundtrip :
    (b a : ℕ)
    → b < 2 ^ 16
    → a < 2 ^ 11
    → (hid_block_index (make_hid b a) ≡ b)
      × (hid_alloc_index (make_hid b a) ≡ a)
      × (hnid_is_hid (make_hid b a) ≡ true)
unfolding hid_block_index hid_alloc_index hnid_is_hid
hid_roundtrip b a hb ha = (
  omega (arith, make_hid_sum b a hb ha),
  omega (arith, make_hid_sum b a hb ha, bit_and_mask 11 (make_hid b a / 2 ^ 5)),
  ground (arith, make_hid_sum b a hb ha, bit_and_mask 5 (make_hid b a)),
)

pub make_bid_sum :
    (index : ℕ) (internal : Bool)
    → index < 2 ^ 62
    → make_bid index internal ≡ index * 4 + (if internal then 2 else 0)
unfolding make_bid
make_bid_sum index internal h =
    let shifted : u64 (index <<< 2) ≡ index * 2 ^ 2 = omega arith in
    ap (λ (t : ℕ). bit_or t (if internal then 2 else 0)) shifted
    ∙ bit_or_fields 2 index (if internal then 2 else 0) (ground arith)

-- A BID tells whether its block is internal, and its index.
pub bid_roundtrip :
    (index : ℕ) (internal : Bool)
    → index < 2 ^ 62
    → (bid_is_internal (make_bid index internal) ≡ internal) × (make_bid index internal / 4 ≡ index)
unfolding bid_is_internal
bid_roundtrip index internal h = (
  ground (
    arith,
    make_bid_sum index internal h,
    bit_and_even (make_bid index internal) 1,
    bit_and_mask 1 (make_bid index internal / 2),
  ),
  ground (arith, make_bid_sum index internal h),
)

pub make_tag_sum :
    (id type : ℕ) → id < 2 ^ 16 → type < 2 ^ 16 → make_tag id type ≡ id * 2 ^ 16 + type
unfolding make_tag
make_tag_sum id type hi ht =
    let shifted : u32 (id <<< 16) ≡ id * 2 ^ 16 = omega arith in
    ap (λ (t : ℕ). bit_or t type) shifted ∙ bit_or_fields 16 id type ht

-- A property tag gives back its id and its type.
pub tag_roundtrip :
    (id type : ℕ)
    → id < 2 ^ 16
    → type < 2 ^ 16
    → (tag_id (make_tag id type) ≡ id) × (tag_type (make_tag id type) ≡ type)
unfolding tag_id tag_type
tag_roundtrip id type hi ht = (
  omega (arith, make_tag_sum id type hi ht),
  omega (arith, make_tag_sum id type hi ht, bit_and_mask 16 (make_tag id type)),
)
