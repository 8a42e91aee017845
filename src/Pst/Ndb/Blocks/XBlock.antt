-- ===== src/Pst/Ndb/Blocks/XBlock.antt =====
-- The bytes of an XBLOCK that `emitXBlock` of src/pst/ndb.cpp builds, as a reader takes them apart.
use imap2pst.Base.{
  ℕ, ◌+◌, ◌*◌, ◌/◌, ◌^◌, ◌<◌, ◌≡◌, refl, sym, ap, ap₂, ◌∙◌, arith, List, [], ◌∷◌, ◌++◌, true, ◌&&◌,
  Option, none, some, ◌==◌, if◌then◌else◌, length, get_or, drop, u8, u16, All, All-append,
  append_assoc, append-nil,
}
use imap2pst.Pst.Format.{peek16, peek32, peek64, put16, put32, put64, le_bytes, peek_loop}
use imap2pst.Pst.Format.Endian.{peek_loop_two, peek_loop_four, peek_loop_eight, le_bytes-IsByte}
use imap2pst.Pst.Ndb.Blocks.{put_bids, xblock_bytes}
use imap2pst.Pst.Ndb.Blocks.Store.{IsByte}
use imap2pst.Pst.Ndb.Blocks.Reader.{and_then, parse_bids, read_children, open_xblock}

abbrev pub IsBid : ℕ → Type 0
IsBid b = b < 2 ^ 64

abbrev bid_bytes : List ℕ → List ℕ
bid_bytes [] = []
bid_bytes (c ∷ cs) = le_bytes 8 0 c ++ bid_bytes cs

put_bids-append : (buf cs : List ℕ) → put_bids buf cs ≡ buf ++ bid_bytes cs
unfolding put_bids put64
put_bids-append buf [] = sym (append-nil buf)
put_bids-append buf (c ∷ cs) =
    put_bids-append (buf ++ le_bytes 8 0 c) cs ∙ append_assoc buf (le_bytes 8 0 c) (bid_bytes cs)

parse_bids-bid_bytes : (cs : List ℕ) → All IsBid cs → parse_bids (length cs) (bid_bytes cs) ≡ cs
unfolding parse_bids peek64
parse_bids-bid_bytes [] h = refl
parse_bids-bid_bytes (c ∷ cs) h = ap₂ ◌∷◌ (peek_loop_eight c h.0) (parse_bids-bid_bytes cs h.1)

abbrev header : ℕ → ℕ → ℕ → List ℕ
header level n total = u8 0x01 ∷ u8 level ∷ u8 n ∷ u8 (n / 2 ^ 8) ∷ le_bytes 4 0 total

xblock_bytes_lem :
    (children : List ℕ) (level total : ℕ)
    → xblock_bytes children level total
      ≡ header level (u16 (length children)) total ++ bid_bytes children
unfolding xblock_bytes put16 put32
xblock_bytes_lem children level total =
    put_bids-append (header level (u16 (length children)) total) children

bid_bytes-IsByte : (cs : List ℕ) → All IsByte (bid_bytes cs)
bid_bytes-IsByte [] = tt
bid_bytes-IsByte (c ∷ cs) =
    All-append IsByte (le_bytes 8 0 c) (bid_bytes cs) (le_bytes-IsByte 8 0 c) (bid_bytes-IsByte cs)

length-bid_bytes : (cs : List ℕ) → length (bid_bytes cs) ≡ 8 * length cs
length-bid_bytes [] = refl
length-bid_bytes (c ∷ cs) = omega (arith, length-bid_bytes cs)

pub xblock_bytes-IsByte :
    (children : List ℕ) (level total : ℕ) → All IsByte (xblock_bytes children level total)
xblock_bytes-IsByte children level total = rw (xblock_bytes_lem children level total) (
    All-append IsByte (header level (u16 (length children)) total) (bid_bytes children)
      (omega arith) (bid_bytes-IsByte children))

pub length-xblock_bytes :
    (children : List ℕ) (level total : ℕ)
    → length (xblock_bytes children level total) ≡ 8 + 8 * length children
length-xblock_bytes children level total =
    rw (xblock_bytes_lem children level total) (omega (arith, length-bid_bytes children))

module _ (f : ℕ → Option (List ℕ)) (level : ℕ) (p bytes : List ℕ) where
  open_found :
      get_or p 0 0 ≡ 1
      → get_or p 1 0 ≡ level
      → read_children f (parse_bids (peek16 p 2) (drop 8 p)) ≡ some bytes
      → peek32 p 4 ≡ length bytes
      → open_xblock f level p ≡ some bytes
  unfolding open_xblock
  open_found type same reads fits =
      ap (λ t. if t then and_then children checked else none) header_ok
      ∙ ap (λ o. and_then o checked) reads
      ∙ ap (λ t. if t then some bytes else none) total_ok
    where
      children : Option (List ℕ)
      children = read_children f (parse_bids (peek16 p 2) (drop 8 p))

      checked : List ℕ → Option (List ℕ)
      checked b = if peek32 p 4 == length b then some b else none

      header_ok : (get_or p 0 0 == 1 && get_or p 1 0 == level) ≡ true
      header_ok = ground arith

      total_ok : (peek32 p 4 == length bytes) ≡ true
      total_ok = ground arith

-- A reader opens the XBLOCK of the children that hold `bytes`, if its level and its total are theirs.
pub open_xblock_lem :
    (f : ℕ → Option (List ℕ)) (children bytes : List ℕ) (level total : ℕ)
    → All IsBid children
    → length children < 2 ^ 16
    → level < 256
    → total < 2 ^ 32
    → read_children f children ≡ some bytes
    → total ≡ length bytes
    → open_xblock f level (xblock_bytes children level total) ≡ some bytes
unfolding peek16 peek32
open_xblock_lem f children bytes level total bids few lv small reads fits =
    rw (xblock_bytes_lem children level total) (
      open_found f level (header level (u16 (length children)) total ++ bid_bytes children) bytes
        refl (omega arith) found (peek_loop_four total small ∙ fits))
  where
    count :
        peek_loop 16 (u8 (u16 (length children)) ∷ u8 (u16 (length children) / 2 ^ 8) ∷ [])
        ≡ length children
    count = peek_loop_two (u16 (length children)) (omega arith) ∙ omega arith

    found :
        read_children f (
          parse_bids
            (peek_loop 16 (u8 (u16 (length children)) ∷ u8 (u16 (length children) / 2 ^ 8) ∷ []))
            (bid_bytes children))
        ≡ some bytes
    found =
        ap (λ n. read_children f (parse_bids n (bid_bytes children))) count
        ∙ ap (read_children f) (parse_bids-bid_bytes children bids)
        ∙ reads

-- The level stands in the second byte.
pub xblock_level :
    (children : List ℕ) (level total : ℕ)
    → level < 256
    → get_or (xblock_bytes children level total) 1 0 ≡ level
xblock_level children level total h = rw (xblock_bytes_lem children level total) (omega arith)
