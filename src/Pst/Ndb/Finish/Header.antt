-- ===== src/Pst/Ndb/Finish/Header.antt =====
-- The header that `writeHeader` of src/pst/ndb.cpp writes, and its checksums.
use imap2pst.Base.{
  ℕ, ◌<◌, ◌^◌, ◌≡◌, sym, ap, ◌∙◌, inl, inr, arith, List, [], ◌∷◌, length, drop, slice, All-take,
  All-drop,
}
use imap2pst.Pst.Format.{poke32, peek32, peek_loop}
use imap2pst.Pst.Format.Endian.{IsByte, peek32-poke32, length-poke32, slice-poke32}
use imap2pst.Pst.Format.Buffer.{IsBuffer, poke32-IsBuffer}
use imap2pst.Pst.Crc.{compute_crc}
use imap2pst.Pst.Crc.Bitwise.{compute_crc-lt}
use imap2pst.Pst.Ndb.Finish.{seal_header}

-- A reader's view of a header: 564 bytes, the magic numbers, and two checksums of what stands there.
pub record IsHeader (h : List ℕ) : Type 0 where
  pub size : length h ≡ 564
  pub magic : slice h 0 4 ≡ 0x21 ∷ 0x42 ∷ 0x44 ∷ 0x4E ∷ []
  pub crc_partial : peek32 h 4 ≡ compute_crc 0 (slice h 8 471)
  pub crc_full : peek32 h 524 ≡ compute_crc 0 (slice h 8 516)

slice-crc : (h : List ℕ) (m n : ℕ) → IsBuffer 564 h → compute_crc 0 (slice h m n) < 2 ^ 32
slice-crc h m n b =
    compute_crc-lt 0 (slice h m n) (All-take IsByte n (drop m h) (All-drop IsByte m h b.bytes))
      (omega arith)

pub seal_header-IsHeader :
    (h : List ℕ)
    → IsBuffer 564 h
    → slice h 0 4 ≡ 0x21 ∷ 0x42 ∷ 0x44 ∷ 0x4E ∷ []
    → IsHeader (seal_header h)
unfolding seal_header peek32
seal_header-IsHeader h b magic =
    let full = compute_crc 0 (slice h 8 516) in
    let h1 = poke32 h 524 full in
    let b1 = poke32-IsBuffer 564 h 524 full b in
    let part = compute_crc 0 (slice h1 8 471) in
    let body : slice (poke32 h1 4 part) 8 516 ≡ slice h1 8 516 =
      slice-poke32 h1 4 part 8 516 (inr (omega arith)) in
    let kept : slice h1 8 516 ≡ slice h 8 516 = slice-poke32 h 524 full 8 516 (inl (omega arith)) in
    record {
      size = length-poke32 h1 4 part ∙ b1.size;
      magic =
          slice-poke32 h1 4 part 0 4 (inl (omega arith))
          ∙ slice-poke32 h 524 full 0 4 (inl (omega arith))
          ∙ magic;
      crc_partial =
          peek32-poke32 h1 4 part (omega (arith, b1.size)) (slice-crc h1 8 471 b1)
          ∙ ap (compute_crc 0) (sym (slice-poke32 h1 4 part 8 471 (inr (omega arith))));
      crc_full =
          ap (peek_loop 32) (slice-poke32 h1 4 part 524 4 (inr (omega arith)))
          ∙ peek32-poke32 h 524 full (omega (arith, b.size)) (slice-crc h 8 516 b)
          ∙ ap (compute_crc 0) (sym (body ∙ kept));
    }
