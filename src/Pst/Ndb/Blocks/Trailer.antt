-- ===== src/Pst/Ndb/Blocks/Trailer.antt =====
-- The bytes of a block that `emitBlock` of src/pst/ndb.cpp writes.
use imap2pst.Base.{
  ℕ, ◌+◌, ◌-◌, ◌^◌, ◌≤◌, ◌<◌, ◌≡◌, ap, ◌∙◌, inl, arith, List, length, slice, u16, copy_at,
  replicate, length-replicate, length-copy_at, slice-copy_at, All,
}
use imap2pst.Pst.Format.{compute_sig, peek16, peek32, peek64, poke16, poke32, poke64, peek_loop}
use imap2pst.Pst.Format.Endian.{
  peek16-poke16, peek32-poke32, peek64-poke64, length-poke16, length-poke32, length-poke64,
  slice-poke16, slice-poke32, slice-poke64,
}
use imap2pst.Pst.Crc.{compute_crc}
use imap2pst.Pst.Crc.Bitwise.{compute_crc-lt}
use imap2pst.Pst.Ndb.Blocks.{block_bytes}

pub compute_sig-lt : (ib bid : ℕ) → compute_sig ib bid < 2 ^ 16
unfolding compute_sig
compute_sig-lt ib bid = omega arith

-- The four fields that end a block or a page: a number, the signature, the checksum and the BID.
module _ (buf : List ℕ) (t a s c b : ℕ) where
  abbrev pub with_a : List ℕ
  with_a = poke16 buf t a

  abbrev pub with_s : List ℕ
  with_s = poke16 with_a (t + 2) s

  abbrev pub with_c : List ℕ
  with_c = poke32 with_s (t + 4) c

  abbrev pub with_b : List ℕ
  with_b = poke64 with_c (t + 8) b

  sizes :
      (length with_a ≡ length buf)
      × (length with_s ≡ length buf)
      × (length with_c ≡ length buf)
      × (length with_b ≡ length buf)
  sizes = omega (
    arith,
    length-poke16 buf t a,
    length-poke16 with_a (t + 2) s,
    length-poke32 with_s (t + 4) c,
    length-poke64 with_c (t + 8) b,
  )

  module _ (room : t + 16 ≤ length buf) where
    sig_slice : slice with_b (t + 2) 2 ≡ slice with_s (t + 2) 2
    sig_slice =
        slice-poke64 with_c (t + 8) b (t + 2) 2 (inl (omega arith))
        ∙ slice-poke32 with_s (t + 4) c (t + 2) 2 (inl (omega arith))

    first_slice : (m n : ℕ) → m + n ≤ t + 2 → slice with_b m n ≡ slice with_a m n
    first_slice m n h =
        slice-poke64 with_c (t + 8) b m n (inl (omega arith))
        ∙ slice-poke32 with_s (t + 4) c m n (inl (omega arith))
        ∙ slice-poke16 with_a (t + 2) s m n (inl (omega arith))

    -- Each field is read back, and what stands before the trailer is not touched.
    pub trailer_fields :
        a < 2 ^ 16
        → s < 2 ^ 16
        → c < 2 ^ 32
        → b < 2 ^ 64
        → (length with_b ≡ length buf)
          × (peek16 with_b t ≡ a)
          × (peek16 with_b (t + 2) ≡ s)
          × (peek32 with_b (t + 4) ≡ c)
          × (peek64 with_b (t + 8) ≡ b)
          × ((m n : ℕ) → m + n ≤ t → slice with_b m n ≡ slice buf m n)
    unfolding peek16 peek32 peek64
    trailer_fields ha hs hc hb = (
      sizes.3,
      ap (peek_loop 16) (first_slice t 2 (omega arith)) ∙ peek16-poke16 buf t a (omega arith) ha,
      ap (peek_loop 16) sig_slice ∙ peek16-poke16 with_a (t + 2) s (omega (arith, sizes)) hs,
      ap (peek_loop 32) (slice-poke64 with_c (t + 8) b (t + 4) 4 (inl (omega arith)))
          ∙ peek32-poke32 with_s (t + 4) c (omega (arith, sizes)) hc,
      peek64-poke64 with_c (t + 8) b (omega (arith, sizes)) hb,
      λ m n h. first_slice m n (omega arith) ∙ slice-poke16 buf t a m n (inl h),
    )

-- A reader's view of a block of `total` bytes: the payload at its start, and the trailer's fields.
pub record IsBlock (payload : List ℕ) (total ib bid : ℕ) (block : List ℕ) : Type 0 where
  pub size : length block ≡ total
  pub content : slice block 0 (length payload) ≡ payload
  pub cb_field : peek16 block (total - 16) ≡ length payload
  pub sig_field : peek16 block (total - 16 + 2) ≡ compute_sig ib bid
  pub crc_field : peek32 block (total - 16 + 4) ≡ compute_crc 0 payload
  pub bid_field : peek64 block (total - 16 + 8) ≡ bid

-- The bytes of a block hold its payload, and a trailer that states its size, its signature, its
-- checksum and its BID, provided that the trailer's 16 bytes fit behind the payload.
pub block_bytes-IsBlock :
    (payload : List ℕ) (total ib bid : ℕ)
    → All (λ b. b < 256) payload
    → length payload + 16 ≤ total
    → length payload < 2 ^ 16
    → bid < 2 ^ 64
    → IsBlock payload total ib bid (block_bytes payload total ib bid)
unfolding block_bytes
block_bytes-IsBlock payload total ib bid bytes room small small_bid =
    let buf = copy_at (replicate total 0) 0 payload in
    let size : length buf ≡ total =
      length-copy_at (replicate total 0) 0 payload ∙ length-replicate total 0 in
    let fields =
      trailer_fields buf (total - 16) (u16 (length payload)) (compute_sig ib bid)
        (compute_crc 0 payload) bid (omega arith) (omega arith) (compute_sig-lt ib bid)
        (compute_crc-lt 0 payload bytes (omega arith)) small_bid in
    record {
      size = fields.0 ∙ size;
      content =
          fields.5 0 (length payload) (omega arith)
          ∙ slice-copy_at payload (replicate total 0) 0
              (omega (arith, length-replicate {A = ℕ} total 0));
      cb_field = fields.1 ∙ omega arith;
      sig_field = fields.2;
      crc_field = fields.3;
      bid_field = fields.4;
    }
