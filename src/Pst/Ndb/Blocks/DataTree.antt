-- ===== src/Pst/Ndb/Blocks/DataTree.antt =====
-- `writeData` of src/pst/ndb.cpp: what it stores is read back, and what it refuses.
use imap2pst.Base.{
  ℕ, suc, ◌+◌, ◌^◌, [], ◌∷◌, false, ◌≤◌, ◌<◌, ◌≡◌, ◌∙◌, arith, List, Bool-cases, inl, inr, length,
  All, leb, leb→le,
}
use imap2pst.Pst.Format.{max_block_data}
use imap2pst.Pst.Ndb.State.{NdbWriter, ok, err, data_tree_too_large, bind_ok}
use imap2pst.Pst.Ndb.Blocks.{assemble_data_tree, write_leaves, write_data}
use imap2pst.Pst.Ndb.Blocks.Store.{IsByte}
use imap2pst.Pst.Ndb.Blocks.Leaves.{
  Ready, Ready-le, Extends-trans, leaf_count, WroteLeaves, write_leaves-WroteLeaves,
}
use imap2pst.Pst.Ndb.Blocks.Tree.{group_count}
use imap2pst.Pst.Ndb.Blocks.Data.{WroteTree, WroteTree-block, assemble_data_tree-WroteTree}

-- The blocks that a data tree of so many bytes takes at most.
abbrev pub tree_blocks : ℕ → ℕ
tree_blocks n = leaf_count n + group_count (leaf_count n) + 1

WroteTree-leaves :
    (w w1 : NdbWriter) (leaves bytes : List ℕ) (n : ℕ)
    → WroteLeaves w bytes (group_count (leaf_count (length bytes)) + suc n) leaves w1
    → length bytes < 2 ^ 32
    → (bid : ℕ) × (w' : NdbWriter) × (assemble_data_tree leaves (length bytes) w1 ≡ (ok bid, w'))
      × WroteTree w bytes n bid w'
WroteTree-leaves w w1 leaves bytes n s small =
    let (bid, w', e, t) = assemble_data_tree-WroteTree leaves bytes n w1 s.bids s.holds small (
      Ready-le (group_count (length leaves) + suc n)
        (group_count (leaf_count (length bytes)) + suc n) w1 (omega (arith, s.count)) s.ready) in
    (
      bid,
      w',
      e,
      record { reads = t.reads; extends = Extends-trans s.extends t.extends; ready = t.ready },
    )

-- On a disk that takes every write and with room for the blocks, `writeData` of less than 4 GiB succeeds:
-- whatever the shape of the tree (one block, an XBLOCK, an XXBLOCK), the reader finds the very bytes under
-- the BID that it returns, every block stored before is still there, and the writer is ready for more.
pub write_data-WroteTree :
    (bytes : List ℕ) (n : ℕ) (w : NdbWriter)
    → All IsByte bytes
    → length bytes < 2 ^ 32
    → Ready (tree_blocks (length bytes) + n) w
    → (bid : ℕ) × (w' : NdbWriter) × (write_data bytes w ≡ (ok bid, w'))
      × WroteTree w bytes n bid w'
unfolding write_data
write_data-WroteTree bytes n w b small r = elim (Bool-cases (leb (length bytes) max_block_data)) [
  | inl one ↦ rw one (
      WroteTree-block bytes n w
        (Ready-le (suc n) (tree_blocks (length bytes) + n) w (omega arith) r) b (leb→le _ _ one))
  | inr more ↦
      let (leaves, w1, e1, s) =
        write_leaves-WroteLeaves (length bytes) bytes
          (group_count (leaf_count (length bytes)) + suc n) w (omega arith) b
          (Ready-le (leaf_count (length bytes) + (group_count (leaf_count (length bytes)) + suc n))
            (tree_blocks (length bytes) + n) w (omega arith) r) in
      let (bid, w', e2, t) = WroteTree-leaves w w1 leaves bytes n s small in
      rw more (
        bid,
        w',
        bind_ok (write_leaves (length bytes) bytes) (λ ls. assemble_data_tree ls (length bytes)) e1
            ∙ e2,
        t,
      )
]

assemble_too_large :
    (leaves : List ℕ) (total : ℕ) (w : NdbWriter)
    → 1 < length leaves
    → 2 ^ 32 ≤ total
    → assemble_data_tree leaves total w ≡ (err data_tree_too_large, w)
unfolding assemble_data_tree
assemble_too_large [] total w h t = absurd (omega arith)
assemble_too_large (l ∷ []) total w h t = absurd (omega arith)
assemble_too_large (k ∷ l ∷ ls) total w h t = ground arith

-- A stream of 4 GiB or more is refused, but only when its leaves have been written: the writer that is
-- left has them, as many as the bytes need.
pub write_data-too_large :
    (bytes : List ℕ) (n : ℕ) (w : NdbWriter)
    → All IsByte bytes
    → 2 ^ 32 ≤ length bytes
    → Ready (leaf_count (length bytes) + n) w
    → (leaves : List ℕ) × (w' : NdbWriter) × (write_data bytes w ≡ (err data_tree_too_large, w'))
      × WroteLeaves w bytes n leaves w'
unfolding write_data
write_data-too_large bytes n w b large r =
    let (leaves, w1, e1, s) = write_leaves-WroteLeaves (length bytes) bytes n w (omega arith) b r in
    rw (not_one (length bytes) large) (
      leaves,
      w1,
      bind_ok (write_leaves (length bytes) bytes) (λ ls. assemble_data_tree ls (length bytes)) e1
          ∙ assemble_too_large leaves (length bytes) w1 (omega (arith, s.count)) large,
      s,
    )
  where
    not_one : (t : ℕ) → 2 ^ 32 ≤ t → leb t max_block_data ≡ false
    not_one t h = ground arith
