-- ===== src/Tests/Formats.antt =====
-- Runs of src/pst/crc.cpp and of the packed fields of src/pst/pst_format.h.
use imap2pst.Base.{ℕ, ◌+◌, ◌/◌, ◌≤◌, ◌<◌, ◌≡◌, ◌%◌, arith, List, [], ◌∷◌, true, All, replicate}
use imap2pst.Pst.Format.{
  make_nid, nid_type, nid_index, make_bid, bid_is_internal, make_hid, hid_alloc_index,
  hid_block_index, hnid_is_hid, make_tag, tag_id, tag_type, align_up, peek16, peek32, peek64,
  poke16, poke32, poke64,
}
use imap2pst.Pst.Format.Ids.{nid_roundtrip, hid_roundtrip, bid_roundtrip, tag_roundtrip}
use imap2pst.Pst.Format.Endian.{peek-poke}
use imap2pst.Pst.Format.Align.{align_up_bounds}
use imap2pst.Pst.Crc.{compute_crc}
use imap2pst.Pst.Crc.Bitwise.{divide, compute_crc-eq-divide}

abbrev some_bytes : List ℕ
some_bytes = 0x31 ∷ 0x32 ∷ 0xFF ∷ []

some_bytes-IsByte : All (λ b. b < 256) some_bytes
some_bytes-IsByte = (omega arith, (omega arith, (omega arith, tt)))

crc_divides : compute_crc 7 some_bytes ≡ divide 7 some_bytes
crc_divides = compute_crc-eq-divide 7 some_bytes some_bytes-IsByte

message_store_nid : (nid_type (make_nid 1 1) ≡ 1) × (nid_index (make_nid 1 1) ≡ 1)
message_store_nid = nid_roundtrip 1 1 (omega arith) (omega arith)

third_hid :
    (hid_block_index (make_hid 2 3) ≡ 2)
    × (hid_alloc_index (make_hid 2 3) ≡ 3)
    × (hnid_is_hid (make_hid 2 3) ≡ true)
third_hid = hid_roundtrip 2 3 (omega arith) (omega arith)

internal_bid : (bid_is_internal (make_bid 5 true) ≡ true) × (make_bid 5 true / 4 ≡ 5)
internal_bid = bid_roundtrip 5 true (omega arith)

subject_tag : (tag_id (make_tag 0x37 0x1F) ≡ 0x37) × (tag_type (make_tag 0x37 0x1F) ≡ 0x1F)
subject_tag = tag_roundtrip 0x37 0x1F (omega arith) (omega arith)

align_100 : (100 ≤ align_up 100 64) × (align_up 100 64 < 100 + 64) × (align_up 100 64 % 64 ≡ 0)
align_100 = align_up_bounds 100 64 (omega arith) (omega arith)

poke_in_page :
    (peek16 (poke16 (replicate 16 0) 14 500) 14 ≡ 500)
    × (peek32 (poke32 (replicate 16 0) 12 70000) 12 ≡ 70000)
    × (peek64 (poke64 (replicate 16 0) 8 5000000000) 8 ≡ 5000000000)
poke_in_page =
    peek-poke (replicate 16 0) 14 12 8 500 70000 5000000000 (omega arith) (omega arith)
      (omega arith) (omega arith) (omega arith) (omega arith)
