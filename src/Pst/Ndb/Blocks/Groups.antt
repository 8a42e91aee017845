-- ===== src/Pst/Ndb/Blocks/Groups.antt =====
-- The XBLOCKs of a data tree: the loop of `assembleDataTree` in src/pst/ndb.cpp over groups of leaves.
use imap2pst.Base.{
  ℕ, zero, suc, ◌+◌, ◌*◌, ◌^◌, ◌≤◌, ◌<◌, ◌≡◌, refl, sym, ap, subst, ◌∙◌, arith, List, [], ◌∷◌, true,
  Option, none, some, Option-cases, inl, inr, length, take, drop, All, length-take, length-drop,
  take-append-drop, take-take, drop-take, drop-add,
}
use imap2pst.Pst.Format.{peek16, max_block_data, bid_is_internal}
use imap2pst.Pst.Ndb.State.{NdbWriter, ok}
use imap2pst.Pst.Ndb.Blocks.{emit_xblock, xblock_fanout, xblock_bytes}
use imap2pst.Pst.Ndb.Blocks.Store.{read_block, Extends}
use imap2pst.Pst.Ndb.Blocks.Reader.{
  and_then, read_leaf, parse_bids, read_children, open_xblock, read_xblock,
}
use imap2pst.Pst.Ndb.Blocks.XBlock.{
  IsBid, xblock_bytes-IsByte, length-xblock_bytes, open_xblock_lem,
}
use imap2pst.Pst.Ndb.Blocks.Leaves.{Ready, emit_block-Ready, leaf_count, Leaves}

-- The leaves of a tree, read one behind the other, are its bytes.
pub Leaves-read :
    (w : NdbWriter) (bids bytes : List ℕ)
    → Leaves w bids bytes
    → read_children (read_leaf w) bids ≡ some bytes
unfolding read_children
Leaves-read w [] [] h = refl
Leaves-read w [] (x ∷ xs) h = absurd (omega arith)
Leaves-read w (b ∷ bs) bytes h =
    rw (h.0, Leaves-read w bs (drop max_block_data bytes) h.2)
      (ap some (take-append-drop max_block_data bytes))

pub Leaves-take :
    (n : ℕ) (w : NdbWriter) (bids bytes : List ℕ)
    → Leaves w bids bytes
    → Leaves w (take n bids) (take (n * max_block_data) bytes)
Leaves-take zero w bids bytes h = refl
Leaves-take (suc n) w [] bytes h = omega (arith, length-take (suc n * max_block_data) bytes)
Leaves-take (suc n) w (b ∷ bs) bytes h = rw size (
  h.0
      ∙ ap some (
          sym (take-take max_block_data (max_block_data + n * max_block_data) bytes (omega arith))),
  omega (arith, length-take (max_block_data + n * max_block_data) bytes, h.1),
  rw drop-take (Leaves-take n w bs (drop max_block_data bytes) h.2),
)
  where
    size : suc n * max_block_data ≡ max_block_data + n * max_block_data
    size = omega arith

pub Leaves-drop :
    (n : ℕ) (w : NdbWriter) (bids bytes : List ℕ)
    → Leaves w bids bytes
    → Leaves w (drop n bids) (drop (n * max_block_data) bytes)
Leaves-drop zero w bids bytes h = h
Leaves-drop (suc n) w [] bytes h = omega (arith, length-drop (suc n * max_block_data) bytes)
Leaves-drop (suc n) w (b ∷ bs) bytes h =
    subst (λ t. Leaves w (drop n bs) (drop t bytes)) size
      (rw (drop-add max_block_data (n * max_block_data) bytes)
        (Leaves-drop n w bs (drop max_block_data bytes) h.2))
  where
    size : max_block_data + n * max_block_data ≡ suc n * max_block_data
    size = omega arith

pub length-Leaves :
    (w : NdbWriter) (bids bytes : List ℕ)
    → Leaves w bids bytes
    → length bids ≡ leaf_count (length bytes)
length-Leaves w [] bytes h = omega arith
length-Leaves w (b ∷ bs) bytes h = omega (
  arith,
  length-Leaves w bs (drop max_block_data bytes) h.2,
  h.1,
  length-drop max_block_data bytes,
)

some_of_and_then {ℓ κ} :
    {A : Type ℓ} {B : Type κ} (o : Option A) (f : A → Option B) {b : B}
    → and_then o f ≡ some b
    → (a : A) × (o ≡ some a) × (f a ≡ some b)
some_of_and_then none f h = absurd (cc)
some_of_and_then (some a) f h = (a, refl, h)

module _ (f g : ℕ → Option (List ℕ))
    (keeps : (b : ℕ) (x : List ℕ) → f b ≡ some x → g b ≡ some x) where
  pub read_children_mono :
      (bs bytes : List ℕ) → read_children f bs ≡ some bytes → read_children g bs ≡ some bytes
  unfolding read_children
  read_children_mono [] bytes h = h
  read_children_mono (b ∷ bs) bytes h =
      let (first, e, h1) = some_of_and_then (f b) _ h in
      let (rest, e', h2) = some_of_and_then (read_children f bs) _ h1 in
      rw (keeps b first e, read_children_mono bs rest e') h2

  pub open_xblock_mono :
      (level : ℕ) (p bytes : List ℕ)
      → open_xblock f level p ≡ some bytes
      → open_xblock g level p ≡ some bytes
  unfolding open_xblock
  open_xblock_mono level p bytes h =
      let bids : List ℕ = parse_bids (peek16 p 2) (drop 8 p) in
      elim (Option-cases (read_children f bids)) [
        | inl unread ↦ absurd (ground (arith, unread))
        | inr (x, e) ↦ ground (arith, e, read_children_mono bids x e)
      ]

-- What is read below an XBLOCK is read in every later writer too.
pub read_xblock-Extends :
    (w w' : NdbWriter) (f g : ℕ → Option (List ℕ)) (level bid : ℕ) (bytes : List ℕ)
    → Extends w w'
    → ((b : ℕ) (x : List ℕ) → f b ≡ some x → g b ≡ some x)
    → read_xblock w f level bid ≡ some bytes
    → read_xblock w' g level bid ≡ some bytes
unfolding read_xblock
read_xblock-Extends w w' f g level bid bytes x keeps h = elim (Option-cases (read_block w bid)) [
  | inl absent ↦ absurd (ground (arith, absent))
  | inr (p, e) ↦ ground (arith, e, x.kept bid p e, open_xblock_mono f g keeps level p bytes)
]

open_stored :
    (w : NdbWriter) (f : ℕ → Option (List ℕ)) (level bid : ℕ) (p bytes : List ℕ)
    → bid_is_internal bid ≡ true
    → read_block w bid ≡ some p
    → open_xblock f level p ≡ some bytes
    → read_xblock w f level bid ≡ some bytes
unfolding read_xblock
open_stored w f level bid p bytes k c o = rw (k, c) o

-- Storing the XBLOCK of children that can be read makes their bytes readable under one BID.
pub emit_xblock-Ready :
    (children bytes : List ℕ) (level total n : ℕ) (f : NdbWriter → ℕ → Option (List ℕ))
    (w : NdbWriter)
    → Ready (suc n) w
    → ((v v' : NdbWriter) (b : ℕ) (x : List ℕ) → Extends v v' → f v b ≡ some x → f v' b ≡ some x)
    → All IsBid children
    → length children ≤ xblock_fanout
    → level < 256
    → total < 2 ^ 32
    → read_children (f w) children ≡ some bytes
    → total ≡ length bytes
    → (bid : ℕ) × (w' : NdbWriter) × (emit_xblock children level total w ≡ (ok bid, w'))
      × (read_xblock w' (f w') level bid ≡ some bytes)
      × (bid_is_internal bid ≡ true)
      × (read_block w' bid ≡ some (xblock_bytes children level total))
      × (bid < 2 ^ 64)
      × Extends w w'
      × Ready n w'
unfolding emit_xblock read_xblock
emit_xblock-Ready children bytes level total n f w r keeps bids few lv small reads fits =
    let p : List ℕ = xblock_bytes children level total in
    let (bid, w', e, s, r') =
      emit_block-Ready p true n w r (xblock_bytes-IsByte children level total)
        (omega (arith, length-xblock_bytes children level total)) in
    let reads' =
      read_children_mono (f w) (f w') (λ b x. keeps w w' b x s.extends) children bytes reads in
    let opened =
      open_xblock_lem (f w') children bytes level total bids (omega arith) lv small reads' fits in
    (
      bid,
      w',
      e,
      open_stored w' (f w') level bid p bytes s.kind s.content opened,
      s.kind,
      s.content,
      s.small_bid,
      s.extends,
      r',
    )
