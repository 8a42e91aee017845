-- ===== src/Pst/Ndb/Blocks/Reader.antt =====
-- An independent reader of the data trees that src/pst/ndb.cpp writes: it finds blocks by their BIDs,
-- tells data blocks from XBLOCKs by the internal bit, and checks the header of each XBLOCK.
use imap2pst.Base.{
  ℕ, zero, suc, List, [], ◌∷◌, ◌++◌, ◌&&◌, Option, none, some, ◌==◌, if◌then◌else◌, length, get_or,
  drop,
}
use imap2pst.Pst.Format.{bid_is_internal, peek16, peek32, peek64}
use imap2pst.Pst.Ndb.State.{NdbWriter}
use imap2pst.Pst.Ndb.Blocks.Store.{read_block}

abbrev pub and_then {ℓ κ} : {A : Type ℓ} {B : Type κ} → Option A → (A → Option B) → Option B
and_then none f = none
and_then (some a) f = f a

-- The array of BIDs behind an XBLOCK's header.
unfoldable pub parse_bids : ℕ → List ℕ → List ℕ
parse_bids zero buf = []
parse_bids (suc n) buf = peek64 buf 0 ∷ parse_bids n (drop 8 buf)

-- A data block.
unfoldable pub read_leaf : NdbWriter → ℕ → Option (List ℕ)
read_leaf w bid = if bid_is_internal bid then none else read_block w bid

-- What the children hold, one behind the other.
unfoldable pub read_children : (ℕ → Option (List ℕ)) → List ℕ → Option (List ℕ)
read_children f [] = some []
read_children f (b ∷ bs) =
    and_then (f b) λ first. and_then (read_children f bs) λ rest. some (first ++ rest)

-- The payload `p` of an XBLOCK of the given level: its type, its level and its total must fit.
unfoldable pub open_xblock : (ℕ → Option (List ℕ)) → ℕ → List ℕ → Option (List ℕ)
open_xblock f level p =
    if get_or p 0 0 == 1 && get_or p 1 0 == level
    then (and_then (read_children f (parse_bids (peek16 p 2) (drop 8 p)))
        λ bytes. if peek32 p 4 == length bytes then some bytes else none)
    else none

unfoldable pub read_xblock : NdbWriter → (ℕ → Option (List ℕ)) → ℕ → ℕ → Option (List ℕ)
read_xblock w f level bid =
    if bid_is_internal bid then and_then (read_block w bid) (open_xblock f level) else none

-- A data tree of any of the three shapes.
unfoldable pub read_data : NdbWriter → ℕ → Option (List ℕ)
read_data w bid =
    if bid_is_internal bid
    then (and_then (read_block w bid) λ p.
        if get_or p 1 0 == 2
        then read_xblock w (read_xblock w (read_leaf w) 1) 2 bid
        else read_xblock w (read_leaf w) 1 bid)
    else read_block w bid
