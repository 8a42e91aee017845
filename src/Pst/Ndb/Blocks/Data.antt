-- ===== src/Pst/Ndb/Blocks/Data.antt =====
-- Data trees: `assembleDataTree` and `writeData` of src/pst/ndb.cpp against the reader.
use imap2pst.Base.{
  ℕ, suc, ◌+◌, ◌^◌, ◌≤◌, ◌<◌, ◌≡◌, refl, ap, ◌∙◌, arith, List, [], ◌∷◌, true, false, Bool-cases,
  inl, inr, some, if◌then◌else◌, length, u32, All, ltb, leb, leb→le, take_all, length-drop,
}
use imap2pst.Pst.Format.{max_block_data, bid_is_internal}
use imap2pst.Pst.Ndb.State.{NdbWriter, ok, throw, data_tree_too_deep, bind_ok, ◌>>=◌, M}
use imap2pst.Pst.Ndb.Blocks.{
  emit_block, emit_xblock, emit_xblocks, xblock_fanout, xblock_bytes, assemble_data_tree,
}
use imap2pst.Pst.Ndb.Blocks.Store.{IsByte, read_block, Extends}
use imap2pst.Pst.Ndb.Blocks.Reader.{read_leaf, read_xblock, read_data}
use imap2pst.Pst.Ndb.Blocks.XBlock.{IsBid, xblock_level}
use imap2pst.Pst.Ndb.Blocks.Leaves.{
  Ready, Ready-le, Extends-refl, Extends-trans, read_leaf-Extends, Leaves, emit_block-Ready,
}
use imap2pst.Pst.Ndb.Blocks.Groups.{Leaves-read, length-Leaves, emit_xblock-Ready}
use imap2pst.Pst.Ndb.Blocks.Tree.{
  group_count, read_group, read_group-Extends, WroteGroups, emit_xblocks-WroteGroups,
}

-- The writer `w'` has come from `w` by storing `bytes` under the root `bid`.
pub record WroteTree (w : NdbWriter) (bytes : List ℕ) (n bid : ℕ) (w' : NdbWriter) : Type 0 where
  pub reads : read_data w' bid ≡ some bytes
  pub extends : Extends w w'
  pub ready : Ready n w'

read_data_block :
    (w : NdbWriter) (bid : ℕ) (bytes : List ℕ)
    → bid_is_internal bid ≡ false
    → read_block w bid ≡ some bytes
    → read_data w bid ≡ some bytes
unfolding read_data
read_data_block w bid bytes k h = rw k h

read_data_leaf :
    (w : NdbWriter) (bid : ℕ) (bytes : List ℕ)
    → read_leaf w bid ≡ some bytes
    → read_data w bid ≡ some bytes
unfolding read_data read_leaf
read_data_leaf w bid bytes h = ground (arith, h)

module _ (w : NdbWriter) (bid total : ℕ) (children bytes : List ℕ)
    (internal : bid_is_internal bid ≡ true) where
  read_data_xblock :
      read_block w bid ≡ some (xblock_bytes children 1 total)
      → read_group w bid ≡ some bytes
      → read_data w bid ≡ some bytes
  unfolding read_data
  read_data_xblock stored reads =
      rw (internal, stored) (rw (xblock_level children 1 total (omega arith)) reads)

  read_data_xxblock :
      read_block w bid ≡ some (xblock_bytes children 2 total)
      → read_xblock w (read_group w) 2 bid ≡ some bytes
      → read_data w bid ≡ some bytes
  unfolding read_data
  read_data_xxblock stored reads =
      rw (internal, stored) (rw (xblock_level children 2 total (omega arith)) reads)

pub WroteTree-block :
    (bytes : List ℕ) (n : ℕ) (w : NdbWriter)
    → Ready (suc n) w
    → All IsByte bytes
    → length bytes ≤ max_block_data
    → (bid : ℕ) × (w' : NdbWriter) × (emit_block bytes false w ≡ (ok bid, w'))
      × WroteTree w bytes n bid w'
WroteTree-block bytes n w r b small =
    let (bid, w', e, s, r') = emit_block-Ready bytes false n w r b small in
    (
      bid,
      w',
      e,
      record {
        reads = read_data_block w' bid bytes s.kind s.content;
        extends = s.extends;
        ready = r';
      },
    )

WroteTree-xblock :
    (leaves bytes : List ℕ) (n : ℕ) (w : NdbWriter)
    → Ready (suc n) w
    → All IsBid leaves
    → Leaves w leaves bytes
    → length leaves ≤ xblock_fanout
    → length bytes < 2 ^ 32
    → (bid : ℕ) × (w' : NdbWriter) × (emit_xblock leaves 1 (u32 (length bytes)) w ≡ (ok bid, w'))
      × WroteTree w bytes n bid w'
WroteTree-xblock leaves bytes n w r b h few small =
    let (bid, w', e, reads, kind, content, _, x, r') =
      emit_xblock-Ready leaves bytes 1 (u32 (length bytes)) n read_leaf w r
        (λ v v' c y z. read_leaf-Extends v v' c y z) b few (omega arith) (omega arith)
        (Leaves-read w leaves bytes h) (omega arith) in
    (
      bid,
      w',
      e,
      record {
        reads = read_data_xblock w' bid (u32 (length bytes)) leaves bytes kind content reads;
        extends = x;
        ready = r';
      },
    )

WroteTree-xxblock :
    (w0 : NdbWriter) (leaves xs bytes : List ℕ) (n : ℕ) (w : NdbWriter)
    → WroteGroups w0 leaves bytes (suc n) xs w
    → length xs ≤ xblock_fanout
    → length bytes < 2 ^ 32
    → (bid : ℕ) × (w' : NdbWriter) × (emit_xblock xs 2 (u32 (length bytes)) w ≡ (ok bid, w'))
      × WroteTree w0 bytes n bid w'
WroteTree-xxblock w0 leaves xs bytes n w g few small =
    let (bid, w', e, reads, kind, content, _, x, r') =
      emit_xblock-Ready xs bytes 2 (u32 (length bytes)) n read_group w g.ready
        (λ v v' c y z. read_group-Extends v v' c y z) g.bids few (omega arith) (omega arith) g.holds
        (omega arith) in
    (
      bid,
      w',
      e,
      record {
        reads = read_data_xxblock w' bid (u32 (length bytes)) xs bytes kind content reads;
        extends = Extends-trans g.extends x;
        ready = r';
      },
    )

-- The last branch of `assembleDataTree`, behind its XBLOCKs.
unfoldable many_xblocks : ℕ → List ℕ → M ℕ
many_xblocks total xblocks =
    if ltb xblock_fanout (length xblocks)
    then throw data_tree_too_deep
    else emit_xblock xblocks 2 (u32 total)

unfoldable many_leaves : List ℕ → ℕ → M ℕ
many_leaves leaves total = emit_xblocks (length leaves) 0 leaves total >>= many_xblocks total

many_xblocks_few :
    (xs : List ℕ) (total : ℕ) (w : NdbWriter)
    → length xs ≤ xblock_fanout
    → many_xblocks total xs w ≡ emit_xblock xs 2 (u32 total) w
unfolding many_xblocks
many_xblocks_few xs total w few = ground arith

many_leaves-WroteTree :
    (leaves bytes : List ℕ) (n : ℕ) (w : NdbWriter)
    → All IsBid leaves
    → Leaves w leaves bytes
    → length bytes < 2 ^ 32
    → Ready (group_count (length leaves) + suc n) w
    → (bid : ℕ) × (w' : NdbWriter) × (many_leaves leaves (length bytes) w ≡ (ok bid, w'))
      × WroteTree w bytes n bid w'
unfolding many_leaves
many_leaves-WroteTree leaves bytes n w b h small r =
    let (xs, w1, e1, g) =
      emit_xblocks-WroteGroups (length leaves) 0 leaves bytes (length bytes) (suc n) w (omega arith)
        b h (λ _. omega arith) small r in
    let few : length xs ≤ xblock_fanout = omega (arith, g.count, length-Leaves w leaves bytes h) in
    let (bid, w', e2, t) = WroteTree-xxblock w leaves xs bytes n w1 g few small in
    (
      bid,
      w',
      bind_ok (emit_xblocks (length leaves) 0 leaves (length bytes)) (many_xblocks (length bytes))
            e1
          ∙ many_xblocks_few xs (length bytes) w1 few
          ∙ e2,
      t,
    )

-- Leaves that hold some bytes, whatever their number, are assembled into a tree from whose root those
-- bytes are read: below 4 GiB, with room for the blocks, on a disk that takes every write.
pub assemble_data_tree-WroteTree :
    (leaves bytes : List ℕ) (n : ℕ) (w : NdbWriter)
    → All IsBid leaves
    → Leaves w leaves bytes
    → length bytes < 2 ^ 32
    → Ready (group_count (length leaves) + suc n) w
    → (bid : ℕ) × (w' : NdbWriter) × (assemble_data_tree leaves (length bytes) w ≡ (ok bid, w'))
      × WroteTree w bytes n bid w'
unfolding assemble_data_tree many_leaves many_xblocks
assemble_data_tree-WroteTree [] [] n w b h small r =
    WroteTree-block [] n w (Ready-le _ _ w (omega arith) r) tt (omega arith)
assemble_data_tree-WroteTree [] (x ∷ xs) n w b h small r = absurd (omega arith)
assemble_data_tree-WroteTree (l ∷ []) bytes n w b h small r = (
  l,
  w,
  refl,
  record {
    reads = read_data_leaf w l bytes (
        h.0
        ∙ ap some
            (take_all max_block_data bytes (omega (arith, h.2, length-drop max_block_data bytes))));
    extends = Extends-refl w;
    ready = Ready-le _ _ w (omega arith) r;
  },
)
assemble_data_tree-WroteTree (k ∷ l ∷ ls) bytes n w b h small r =
    let leaves = k ∷ l ∷ ls in
    rw (not_too_large (length bytes) small) (elim (Bool-cases (leb (length leaves) xblock_fanout)) [
      | inl few ↦ rw few (
          WroteTree-xblock leaves bytes n w (Ready-le _ _ w (omega arith) r) b h (leb→le _ _ few)
            small)
      | inr many ↦ rw many (many_leaves-WroteTree leaves bytes n w b h small r)
    ])
  where
    not_too_large : (t : ℕ) → t < 2 ^ 32 → ltb 0xFFFFFFFF t ≡ false
    not_too_large t h = ground arith
