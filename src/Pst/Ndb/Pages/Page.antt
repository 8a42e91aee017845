-- ===== src/Pst/Ndb/Pages/Page.antt =====
-- The trailer of a page, as `finishBTPage` and `emitFixedPages` of src/pst/ndb.cpp write it.
use imap2pst.Base.{
  ℕ, ◌+◌, ◌≤◌, ◌<◌, ◌^◌, ◌≡◌, sym, ap, ◌∙◌, inl, arith, List, [], ◌∷◌, length, take, slice, copy_at,
  length-copy_at, slice-copy_at, slice-copy_at_out, All-take,
}
use imap2pst.Pst.Format.{poke16, poke32, poke64, peek16, peek32, peek64, peek_loop}
use imap2pst.Pst.Format.Endian.{
  IsByte, peek16-poke16, peek32-poke32, peek64-poke64, length-poke16, length-poke32, slice-poke16,
  slice-poke32, slice-poke64, length-poke64,
}
use imap2pst.Pst.Format.Buffer.{IsBuffer}
use imap2pst.Pst.Crc.{compute_crc}
use imap2pst.Pst.Crc.Bitwise.{compute_crc-lt}
use imap2pst.Pst.Ndb.Pages.{page_bytes}

-- A reader's view of a page: its content, its type twice, its signature, its checksum, its BID.
pub record IsPage (content : List ℕ) (ptype sig bid : ℕ) (page : List ℕ) : Type 0 where
  pub size : length page ≡ 512
  pub content_part : slice page 0 496 ≡ content
  pub types : slice page 496 2 ≡ ptype ∷ ptype ∷ []
  pub sig_field : peek16 page 498 ≡ sig
  pub crc_field : peek32 page 500 ≡ compute_crc 0 (slice page 0 496)
  pub bid_field : peek64 page 504 ≡ bid

-- The stages of a trailer, from the page `p` with its types.
module _ (p : List ℕ) (sig crc bid : ℕ) (size : length p ≡ 512) where
  abbrev signed : List ℕ
  signed = poke16 p 498 sig

  abbrev summed : List ℕ
  summed = poke32 signed 500 crc

  before : (m n : ℕ) → m + n ≤ 498 → slice (poke64 summed 504 bid) m n ≡ slice p m n
  before m n h =
      slice-poke64 summed 504 bid m n (inl (omega arith))
      ∙ slice-poke32 signed 500 crc m n (inl (omega arith))
      ∙ slice-poke16 p 498 sig m n (inl h)

  signature : sig < 2 ^ 16 → peek16 (poke64 summed 504 bid) 498 ≡ sig
  unfolding peek16
  signature h =
      ap (peek_loop 16) (
        slice-poke64 summed 504 bid 498 2 (inl (omega arith))
        ∙ slice-poke32 signed 500 crc 498 2 (inl (omega arith)))
      ∙ peek16-poke16 p 498 sig (omega arith) h

  checksum : crc < 2 ^ 32 → peek32 (poke64 summed 504 bid) 500 ≡ crc
  unfolding peek32
  checksum h =
      ap (peek_loop 32) (slice-poke64 summed 504 bid 500 4 (inl (omega arith)))
      ∙ peek32-poke32 signed 500 crc (omega (arith, length-poke16 p 498 sig)) h

  last_field : bid < 2 ^ 64 → peek64 (poke64 summed 504 bid) 504 ≡ bid
  last_field h =
      peek64-poke64 summed 504 bid
        (omega (arith, length-poke16 p 498 sig, length-poke32 signed 500 crc)) h

  all_sizes : length (poke64 summed 504 bid) ≡ 512
  all_sizes =
      omega
        (arith, length-poke16 p 498 sig, length-poke32 signed 500 crc, length-poke64 summed 504 bid)

-- A page of 512 bytes keeps its first 496, and its trailer states the type twice, the signature and the
-- BID that it is given, and the checksum of those 496 bytes.
pub page_bytes-IsPage :
    (page : List ℕ) (ptype sig bid : ℕ)
    → IsBuffer 512 page
    → sig < 2 ^ 16
    → bid < 2 ^ 64
    → IsPage (take 496 page) ptype sig bid (page_bytes page ptype sig bid)
unfolding page_bytes
page_bytes-IsPage page ptype sig bid h small_sig small_bid =
    let typed = copy_at page 496 (ptype ∷ ptype ∷ []) in
    let size : length typed ≡ 512 = length-copy_at page 496 (ptype ∷ ptype ∷ []) ∙ h.size in
    let first : slice typed 0 496 ≡ take 496 page =
      slice-copy_at_out (ptype ∷ ptype ∷ []) page 496 0 496 (inl (omega arith)) in
    let summed_part : take 496 (poke16 typed 498 sig) ≡ take 496 page =
      slice-poke16 typed 498 sig 0 496 (inl (omega arith)) ∙ first in
    let crc = compute_crc 0 (take 496 (poke16 typed 498 sig)) in
    let same_crc : crc ≡ compute_crc 0 (take 496 page) = ap (compute_crc 0) summed_part in
    let crc_small : crc < 2 ^ 32 = omega (
      arith,
      same_crc,
      compute_crc-lt 0 (take 496 page) (All-take IsByte 496 page h.bytes) (omega arith),
    ) in
    let content = before typed sig crc bid size 0 496 (omega arith) ∙ first in
    record {
      size = all_sizes typed sig crc bid size;
      content_part = content;
      types =
          before typed sig crc bid size 496 2 (omega arith)
          ∙ slice-copy_at (ptype ∷ ptype ∷ []) page 496 (omega (arith, h.size));
      sig_field = signature typed sig crc bid size small_sig;
      crc_field =
          checksum typed sig crc bid size crc_small ∙ same_crc ∙ ap (compute_crc 0) (sym content);
      bid_field = last_field typed sig crc bid size small_bid;
    }
