-- ===== src/Pst/Ndb/Blocks/Store.antt =====
-- The block store behind `emitBlock` of src/pst/ndb.cpp: a block that has been written is found by
-- its BID, and stays as it is whatever is written later.
use imap2pst.Base.{
  ℕ, ◌+◌, ◌*◌, ◌≤◌, ◌<◌, ◌≡◌, refl, ap, subst, ◌∙◌, inl, inr, arith, List, [], ◌∷◌, ◌++◌, Bool,
  true, false, Option, none, some, length, u16, All, ◌==◌, ==→eq, if◌then◌else◌, ltb, Bool-cases,
}
use imap2pst.Pst.Format.{max_block_data, block_align, align_up, make_bid}
use imap2pst.Pst.Ndb.State.{
  NdbWriter, Stream, BbtEntry, ok, err, short_write, read, ◌>>◌, return, bind_ok,
}
use imap2pst.Pst.Ndb.Space.{allocate}
use imap2pst.Pst.Ndb.Space.Allocate.{IsSpace}
use imap2pst.Pst.Ndb.Blocks.{
  stream_write, write_at, block_bytes, next_bid, push_block, fill_block, emit_block,
}

abbrev pub IsByte : ℕ → Type 0
IsByte b = b < 256

-- A reader's way to a block: its entry in the block B-tree, then the bytes that the entry names.
unfoldable pub lookup_block : List BbtEntry → ℕ → Option BbtEntry
lookup_block [] bid = none
lookup_block (e ∷ es) bid = if e.bid == bid then some e else lookup_block es bid

unfoldable pub read_block : NdbWriter → ℕ → Option (List ℕ)
read_block w bid = elim (lookup_block w.bbt bid) [
  | none ↦ none
  | some e ↦ some (read w.out.writes e.ib e.cb)
]

-- The disk takes every write.
pub record Takes (s : Stream) : Type 0 where
  pub good : s.good ≡ true
  pub no_fault : (n : ℕ) → s.fails n ≡ false

-- An entry's block lies before `limit`, and its BID is older than `next`.
pub record IsOld (limit next : ℕ) (e : BbtEntry) : Type 0 where
  pub below : e.ib + e.cb ≤ limit
  pub older : e.bid < next * 4

pub record IsStore (w : NdbWriter) : Type 0 where
  pub space : IsSpace w
  pub takes : Takes w.out
  pub old : All (IsOld w.cursor w.next_bid_index) w.bbt

-- What a later writer `w'` keeps of `w`.
pub record Extends (w w' : NdbWriter) : Type 0 where
  pub next : w.next_bid_index ≤ w'.next_bid_index
  pub kept :
      (bid : ℕ) (bytes : List ℕ) → read_block w bid ≡ some bytes → read_block w' bid ≡ some bytes

pub lookup-IsOld :
    (limit next : ℕ) (es : List BbtEntry) (bid : ℕ) {e : BbtEntry}
    → All (IsOld limit next) es
    → lookup_block es bid ≡ some e
    → IsOld limit next e × (e.bid ≡ bid)
unfolding lookup_block
lookup-IsOld limit next [] bid h e = absurd (cc)
lookup-IsOld limit next (x ∷ xs) bid {e = y} h e = elim (Bool-cases (x.bid == bid)) [
  | inl here ↦
      let same : x ≡ y = ground arith in
      subst (λ z. IsOld limit next z × (z.bid ≡ bid)) same (h.0, ==→eq x.bid bid here)
  | inr there ↦ lookup-IsOld limit next xs bid h.1 (rw there at e)
]

-- How a look-up goes on to an entry added at the end.
abbrev pub or_entry : Option BbtEntry → BbtEntry → ℕ → Option BbtEntry
or_entry none x bid = if x.bid == bid then some x else none
or_entry (some e) x bid = some e

pub lookup-append :
    (es : List BbtEntry) (x : BbtEntry) (bid : ℕ)
    → lookup_block (es ++ (x ∷ [])) bid ≡ or_entry (lookup_block es bid) x bid
unfolding lookup_block
lookup-append [] x bid = refl
lookup-append (e ∷ es) x bid = ground (arith, lookup-append es x bid)

-- The writer after a block at `ib`, from the writer `w` that has the space for it.
abbrev pub stored : NdbWriter → List ℕ → Bool → ℕ → NdbWriter
stored w payload internal ib =
    let bid = make_bid w.next_bid_index internal in
    record w {
      next_bid_index = w.next_bid_index + 1;
      out = record w.out {
        writes =
            record {
              ib = ib;
              bytes = block_bytes payload (align_up (length payload + 16) block_align) ib bid;
            }
            ∷ w.out.writes;
      };
      bbt = w.bbt ++ (record { bid = bid; ib = ib; cb = u16 (length payload) } ∷ []);
    }

stream_write-Takes :
    (ib : ℕ) (bytes : List ℕ) (s : Stream)
    → Takes s
    → stream_write ib bytes s ≡ record s { writes = record { ib = ib; bytes = bytes } ∷ s.writes }
unfolding stream_write
stream_write-Takes ib bytes s t = rw (t.good, t.no_fault (length s.writes))

pub write_at-Takes :
    (ib : ℕ) (bytes : List ℕ) (w : NdbWriter)
    → Takes w.out
    → write_at ib bytes w ≡ (
      ok tt,
      record w { out = record w.out { writes = record { ib = ib; bytes = bytes } ∷ w.out.writes } },
    )
unfolding write_at
write_at-Takes ib bytes w t =
    ap (λ s. (if s.good then ok tt else err short_write, record w { out = s }))
      (stream_write-Takes ib bytes w.out t)
    ∙ ap (λ g. (if g then ok tt else err short_write, written)) t.good
  where
    written : NdbWriter
    written = record w {
      out = record w.out { writes = record { ib = ib; bytes = bytes } ∷ w.out.writes };
    }

fill_block_lem :
    (payload : List ℕ) (internal : Bool) (w : NdbWriter) (ib : ℕ)
    → Takes w.out
    → fill_block payload internal ib w
      ≡ (ok (make_bid w.next_bid_index internal), stored w payload internal ib)
unfolding fill_block next_bid push_block
fill_block_lem payload internal w ib t =
    let bid : ℕ = make_bid w.next_bid_index internal in
    bind_ok {B = ℕ}
      (write_at ib (block_bytes payload (align_up (length payload + 16) block_align) ib bid))
      (λ _. push_block (record { bid = bid; ib = ib; cb = u16 (length payload) }) >> return bid)
      (write_at-Takes ib _ (record w { next_bid_index = w.next_bid_index + 1 }) t)

le→not_ltb : (a b : ℕ) → a ≤ b → ltb b a ≡ false
le→not_ltb a b h = ground arith

pub emit_block_allocated :
    (payload : List ℕ) (internal : Bool) (w w1 : NdbWriter) (ib : ℕ)
    → length payload ≤ max_block_data
    → allocate (align_up (length payload + 16) block_align) w ≡ (ok ib, w1)
    → Takes w1.out
    → emit_block payload internal w
      ≡ (ok (make_bid w1.next_bid_index internal), stored w1 payload internal ib)
unfolding emit_block
emit_block_allocated payload internal w w1 ib small e t = rw (le→not_ltb _ _ small) (
    bind_ok (allocate (align_up (length payload + 16) block_align)) (fill_block payload internal) e
    ∙ fill_block_lem payload internal w1 ib t)
