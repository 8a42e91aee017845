-- ===== src/Pst/Ndb/Blocks/Leaves.antt =====
-- The leaves of a data tree: the loop of `writeData` in src/pst/ndb.cpp, and what a reader finds in
-- the leaves.
use imap2pst.Base.{
  ℕ, zero, suc, ◌+◌, ◌-◌, ◌*◌, ◌/◌, ◌^◌, ◌≤◌, ◌<◌, ◌≡◌, refl, ◌∙◌, arith, List, [], ◌∷◌, Bool,
  false, some, length, take, drop, All, All-take, All-drop, length-take, length-drop,
}
use imap2pst.Pst.Format.{max_block_data, bid_is_internal}
use imap2pst.Pst.Ndb.State.{NdbWriter, ok, bind_ok, return, ◌>>=◌}
use imap2pst.Pst.Ndb.Blocks.{emit_block, write_leaf_chunk, write_leaves}
use imap2pst.Pst.Ndb.Blocks.Store.{IsByte, read_block, IsStore, Extends}
use imap2pst.Pst.Ndb.Blocks.Emit.{block_step, IsStored, emit_block-IsStored}
use imap2pst.Pst.Ndb.Blocks.Reader.{read_leaf}
use imap2pst.Pst.Ndb.Blocks.XBlock.{IsBid}

-- The writer can store `n` more blocks.
pub record Ready (n : ℕ) (w : NdbWriter) : Type 0 where
  pub store : IsStore w
  pub few : w.next_bid_index + n < 2 ^ 60
  pub room : w.cursor + n * block_step < 2 ^ 60

pub Ready-le : (m n : ℕ) (w : NdbWriter) → m ≤ n → Ready n w → Ready m w
Ready-le m n w h r = record {
  store = r.store;
  few = omega (arith, r.few);
  room = omega (arith, r.room);
}

pub Extends-refl : (w : NdbWriter) → Extends w w
Extends-refl w = record { next = omega arith; kept = λ b bytes h. h }

pub Extends-trans : {a b c : NdbWriter} → Extends a b → Extends b c → Extends a c
Extends-trans f g = record {
  next = omega (arith, f.next, g.next);
  kept = λ b bytes h. g.kept b bytes (f.kept b bytes h);
}

-- One block of the `n + 1` that there is room for.
pub emit_block-Ready :
    (payload : List ℕ) (internal : Bool) (n : ℕ) (w : NdbWriter)
    → Ready (suc n) w
    → All IsByte payload
    → length payload ≤ max_block_data
    → (bid : ℕ) × (w' : NdbWriter) × (emit_block payload internal w ≡ (ok bid, w'))
      × IsStored w payload internal bid w'
      × Ready n w'
emit_block-Ready payload internal n w r bytes small =
    let (bid, w', e, s) =
      emit_block-IsStored payload internal w r.store bytes small (omega (arith, r.few))
        (omega (arith, r.room)) in
    (
      bid,
      w',
      e,
      s,
      record {
        store = s.store;
        few = omega (arith, r.few, s.next);
        room = omega (arith, r.room, s.growth);
      },
    )

pub read_leaf-Extends :
    (w w' : NdbWriter) (bid : ℕ) (bytes : List ℕ)
    → Extends w w'
    → read_leaf w bid ≡ some bytes
    → read_leaf w' bid ≡ some bytes
unfolding read_leaf
read_leaf-Extends w w' bid bytes x h = ground (arith, x.kept bid bytes)

abbrev pub leaf_count : ℕ → ℕ
leaf_count len = (len + 8175) / 8176

-- The leaves hold the bytes, in pieces that are full but for the last.
abbrev pub Leaves : NdbWriter → List ℕ → List ℕ → Type 0
Leaves w [] bytes = length bytes ≡ 0
Leaves w (b ∷ bs) bytes =
    (read_leaf w b ≡ some (take max_block_data bytes))
    × (0 < length bytes)
    × Leaves w bs (drop max_block_data bytes)

pub Leaves-Extends :
    (w w' : NdbWriter) (bids bytes : List ℕ)
    → Extends w w'
    → Leaves w bids bytes
    → Leaves w' bids bytes
Leaves-Extends w w' [] bytes x h = h
Leaves-Extends w w' (b ∷ bs) bytes x h = (
  read_leaf-Extends w w' b (take max_block_data bytes) x h.0,
  h.1,
  Leaves-Extends w w' bs (drop max_block_data bytes) x h.2,
)

pub record WroteLeaves (w : NdbWriter) (bytes : List ℕ) (n : ℕ) (leaves : List ℕ) (w' : NdbWriter)
    : Type 0 where
  pub ready : Ready n w'
  pub extends : Extends w w'
  pub count : length leaves ≡ leaf_count (length bytes)
  pub bids : All IsBid leaves
  pub holds : Leaves w' leaves bytes

read_stored :
    (w : NdbWriter) (bid : ℕ) (bytes : List ℕ)
    → bid_is_internal bid ≡ false
    → read_block w bid ≡ some bytes
    → read_leaf w bid ≡ some bytes
unfolding read_leaf
read_stored w bid bytes k h = ground arith

pub write_leaves-WroteLeaves :
    (fuel : ℕ) (bytes : List ℕ) (n : ℕ) (w : NdbWriter)
    → length bytes ≤ fuel
    → All IsByte bytes
    → Ready (leaf_count (length bytes) + n) w
    → (leaves : List ℕ) × (w' : NdbWriter) × (write_leaves fuel bytes w ≡ (ok leaves, w'))
      × WroteLeaves w bytes n leaves w'
unfolding write_leaves write_leaf_chunk
write_leaves-WroteLeaves zero [] n w enough b r = (
  [],
  w,
  refl,
  record {
    ready = Ready-le n _ w (omega arith) r;
    extends = Extends-refl w;
    count = refl;
    bids = tt;
    holds = refl;
  },
)
write_leaves-WroteLeaves zero (x ∷ xs) n w enough b r = absurd (omega arith)
write_leaves-WroteLeaves (suc fuel) [] n w enough b r = (
  [],
  w,
  refl,
  record {
    ready = Ready-le n _ w (omega arith) r;
    extends = Extends-refl w;
    count = refl;
    bids = tt;
    holds = refl;
  },
)
write_leaves-WroteLeaves (suc fuel) (x ∷ xs) n w enough b r =
    let bytes = x ∷ xs in
    let more = drop max_block_data bytes in
    let shorter : length more ≡ length bytes - max_block_data = length-drop max_block_data bytes in
    let (leaf, w1, e1, s, r1) =
      emit_block-Ready (take max_block_data bytes) false (leaf_count (length more) + n) w
        (Ready-le _ _ w (omega arith) r) (All-take IsByte max_block_data bytes b)
        (omega (arith, length-take max_block_data bytes)) in
    let (leaves, w2, e2, t) =
      write_leaves-WroteLeaves fuel more n w1 (omega arith) (All-drop IsByte max_block_data bytes b)
        r1 in
    (
      leaf ∷ leaves,
      w2,
      bind_ok (emit_block (take max_block_data bytes) false)
            (λ l. write_leaves fuel more >>= λ ls. return (l ∷ ls)) e1
          ∙ bind_ok (write_leaves fuel more) (λ ls. return (leaf ∷ ls)) e2,
      record {
        ready = t.ready;
        extends = Extends-trans s.extends t.extends;
        count = omega (arith, t.count);
        bids = (s.small_bid, t.bids);
        holds = (
          read_leaf-Extends w1 w2 leaf (take max_block_data bytes) t.extends
              (read_stored w1 leaf (take max_block_data bytes) s.kind s.content),
          omega arith,
          t.holds,
        );
      },
    )
