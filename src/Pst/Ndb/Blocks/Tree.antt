-- ===== src/Pst/Ndb/Blocks/Tree.antt =====
-- The loop of `assembleDataTree` in src/pst/ndb.cpp that groups leaves under XBLOCKs.
use imap2pst.Base.{
  ℕ, zero, suc, ◌+◌, ◌*◌, ◌/◌, ◌^◌, ◌≤◌, ◌<◌, ◌≡◌, refl, ap, ◌∙◌, arith, min, List, [], ◌∷◌, ◌++◌,
  Option, some, length, take, drop, u32, sub64, All, All-take, All-drop, length-take, length-drop,
  take-append-drop,
}
use imap2pst.Pst.Format.{max_block_data}
use imap2pst.Pst.Ndb.State.{NdbWriter, ok, bind_ok, return, ◌>>=◌}
use imap2pst.Pst.Ndb.Blocks.{emit_xblock, emit_xblocks, xblock_fanout}
use imap2pst.Pst.Ndb.Blocks.Store.{Extends}
use imap2pst.Pst.Ndb.Blocks.Reader.{read_leaf, read_children, read_xblock}
use imap2pst.Pst.Ndb.Blocks.XBlock.{IsBid}
use imap2pst.Pst.Ndb.Blocks.Leaves.{
  Ready, Ready-le, Extends-refl, Extends-trans, read_leaf-Extends, Leaves, Leaves-Extends,
}
use imap2pst.Pst.Ndb.Blocks.Groups.{
  Leaves-read, Leaves-take, Leaves-drop, length-Leaves, read_xblock-Extends, emit_xblock-Ready,
}

abbrev pub group_count : ℕ → ℕ
group_count n = (n + 1020) / 1021

-- An XBLOCK of leaves.
abbrev pub read_group : NdbWriter → ℕ → Option (List ℕ)
read_group w = read_xblock w (read_leaf w) 1

pub read_group-Extends :
    (w w' : NdbWriter) (b : ℕ) (x : List ℕ)
    → Extends w w'
    → read_group w b ≡ some x
    → read_group w' b ≡ some x
read_group-Extends w w' b x h =
    read_xblock-Extends w w' (read_leaf w) (read_leaf w') 1 b x h
      (λ c y. read_leaf-Extends w w' c y h)

pub record WroteGroups (w : NdbWriter) (leaves bytes : List ℕ) (n : ℕ) (xs : List ℕ)
    (w' : NdbWriter) : Type 0 where
  pub ready : Ready n w'
  pub extends : Extends w w'
  pub count : length xs ≡ group_count (length leaves)
  pub bids : All IsBid xs
  pub holds : read_children (read_group w') xs ≡ some bytes

no_groups :
    (w : NdbWriter) (n m : ℕ) (bytes : List ℕ)
    → n ≤ m
    → Ready m w
    → length bytes ≡ 0
    → WroteGroups w [] bytes n [] w
unfolding read_children
no_groups w n m [] h r e = record {
  ready = Ready-le n m w h r;
  extends = Extends-refl w;
  count = refl;
  bids = tt;
  holds = refl;
}
no_groups w n m (x ∷ xs) h r e = absurd (omega arith)

more_groups :
    (w1 w2 : NdbWriter) (x : ℕ) (xs first rest : List ℕ)
    → read_group w1 x ≡ some first
    → Extends w1 w2
    → read_children (read_group w2) xs ≡ some rest
    → read_children (read_group w2) (x ∷ xs) ≡ some (first ++ rest)
unfolding read_children
more_groups w1 w2 x xs first rest e k h = rw (read_group-Extends w1 w2 x first k e, h)

pub emit_xblocks-WroteGroups :
    (fuel i : ℕ) (leaves bytes : List ℕ) (total n : ℕ) (w : NdbWriter)
    → length leaves ≤ fuel
    → All IsBid leaves
    → Leaves w leaves bytes
    → (0 < length leaves → total ≡ i * max_block_data + length bytes)
    → total < 2 ^ 32
    → Ready (group_count (length leaves) + n) w
    → (xs : List ℕ) × (w' : NdbWriter) × (emit_xblocks fuel i leaves total w ≡ (ok xs, w'))
      × WroteGroups w leaves bytes n xs w'
unfolding emit_xblocks
emit_xblocks-WroteGroups zero i [] bytes total n w enough b h t small r =
    ([], w, refl, no_groups w n _ bytes (omega arith) r h)
emit_xblocks-WroteGroups zero i (l ∷ ls) bytes total n w enough b h t small r = absurd (omega arith)
emit_xblocks-WroteGroups (suc fuel) i [] bytes total n w enough b h t small r =
    ([], w, refl, no_groups w n _ bytes (omega arith) r h)
emit_xblocks-WroteGroups (suc fuel) i (l ∷ ls) bytes total n w enough b h t small r =
    let leaves = l ∷ ls in
    let k : ℕ = min xblock_fanout (length leaves) in
    let size = k * max_block_data in
    let covered : ℕ = u32 (min size (sub64 total (i * max_block_data))) in
    let whole : total ≡ i * max_block_data + length bytes = t (omega arith) in
    let leaves_left = length-drop k leaves in
    let bytes_left = length-drop size bytes in
    let many = length-Leaves w leaves bytes h in
    let (x, w1, e1, reads, _, _, x_small, ext1, r1) =
      emit_xblock-Ready (take k leaves) (take size bytes) 1 covered
        (group_count (length (drop k leaves)) + n) read_leaf w (Ready-le _ _ w (omega arith) r)
        (λ v v' c y z. read_leaf-Extends v v' c y z) (All-take IsBid k leaves b)
        (omega (arith, length-take k leaves)) (omega arith) (omega arith)
        (Leaves-read w (take k leaves) (take size bytes) (Leaves-take k w leaves bytes h))
        (omega (arith, length-take size bytes)) in
    let (xs, w2, e2, g) =
      emit_xblocks-WroteGroups fuel (i + k) (drop k leaves) (drop size bytes) total n w1
        (omega arith) (All-drop IsBid k leaves b)
        (Leaves-Extends w w1 (drop k leaves) (drop size bytes) ext1
          (Leaves-drop k w leaves bytes h))
        (λ some_left. omega arith) small r1 in
    (
      x ∷ xs,
      w2,
      bind_ok (emit_xblock (take k leaves) 1 covered)
            (λ y. emit_xblocks fuel (i + k) (drop k leaves) total >>= λ ys. return (y ∷ ys)) e1
          ∙ bind_ok (emit_xblocks fuel (i + k) (drop k leaves) total) (λ ys. return (x ∷ ys)) e2,
      record {
        ready = g.ready;
        extends = Extends-trans ext1 g.extends;
        count = omega (arith, g.count);
        bids = (x_small, g.bids);
        holds =
            more_groups w1 w2 x xs (take size bytes) (drop size bytes) reads g.extends g.holds
            ∙ ap some (take-append-drop size bytes);
      },
    )
