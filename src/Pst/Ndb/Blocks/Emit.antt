-- ===== src/Pst/Ndb/Blocks/Emit.antt =====
-- `emitBlock` of src/pst/ndb.cpp as its callers see it: the payload is found under the BID that it
-- returns, and every earlier block is kept.
use imap2pst.Base.{
  ℕ, ◌+◌, ◌*◌, ◌/◌, ◌%◌, ◌^◌, ◌≤◌, ◌<◌, ◌≡◌, sym, ap, subst, ◌∙◌, inl, inr, arith, List, [], ◌∷◌,
  ◌++◌, Bool, true, none, some, Option-cases, length, slice, u16, All, All-append, ◌==◌,
  if◌then◌else◌, take_all,
}
use imap2pst.Pst.Format.{max_block_data, block_align, align_up, make_bid, bid_is_internal}
use imap2pst.Pst.Format.Align.{align_up_64}
use imap2pst.Pst.Format.Ids.{make_bid_sum, bid_roundtrip}
use imap2pst.Pst.Ndb.State.{NdbWriter, Write, BbtEntry, ok, read}
use imap2pst.Pst.Ndb.Space.Allocate.{IsAllocated, allocate_lem}
use imap2pst.Pst.Ndb.Blocks.{block_bytes, emit_block}
use imap2pst.Pst.Ndb.Blocks.Disk.{read_out, read_in}
use imap2pst.Pst.Ndb.Blocks.Trailer.{IsBlock, block_bytes-IsBlock}
use imap2pst.Pst.Ndb.Blocks.Store.{
  IsByte, lookup_block, read_block, Takes, IsOld, IsStore, Extends, lookup-IsOld, lookup-append,
  or_entry, stored, emit_block_allocated,
}

-- The most that a block moves the cursor: itself and what is stepped over.
abbrev pub block_step : ℕ
block_step = 25600

-- The bytes that a block of this payload takes in the file.
abbrev pub total_of : List ℕ → ℕ
total_of payload = align_up (length payload + 16) block_align

-- The writer `w'` has come from `w` by storing `payload` under `bid`.
pub record IsStored (w : NdbWriter) (payload : List ℕ) (internal : Bool) (bid : ℕ) (w' : NdbWriter)
    : Type 0 where
  pub store : IsStore w'
  pub extends : Extends w w'
  pub content : read_block w' bid ≡ some payload
  pub kind : bid_is_internal bid ≡ internal
  pub small_bid : bid < 2 ^ 64
  pub growth : w'.cursor ≤ w.cursor + block_step
  pub next : w'.next_bid_index ≡ w.next_bid_index + 1
  pub on_disk :
      (ib : ℕ) × (ib % 64 ≡ 0)
      × IsBlock payload (total_of payload) ib bid (read w'.out.writes ib (total_of payload))

==-refl : (n : ℕ) → (n == n) ≡ true
==-refl n = ground arith

module _ (w : NdbWriter) (b : ℕ) where
  read_found :
      (e : BbtEntry)
      → lookup_block w.bbt b ≡ some e
      → read_block w b ≡ some (read w.out.writes e.ib e.cb)
  unfolding read_block
  read_found e found = rw (found, read_block)

  read_absent : lookup_block w.bbt b ≡ none → read_block w b ≡ none
  unfolding read_block
  read_absent absent = rw (absent, read_block)

IsOld-mono :
    (limit next limit' next' : ℕ) (es : List BbtEntry)
    → limit ≤ limit'
    → next ≤ next'
    → All (IsOld limit next) es
    → All (IsOld limit' next') es
IsOld-mono limit next limit' next' [] h k a = tt
IsOld-mono limit next limit' next' (e ∷ es) h k a = (
  record { below = omega (arith, a.0.below); older = omega (arith, a.0.older) },
  IsOld-mono limit next limit' next' es h k a.1,
)

lookup_fresh :
    (limit next bid : ℕ) (es : List BbtEntry)
    → All (IsOld limit next) es
    → next * 4 ≤ bid
    → lookup_block es bid ≡ none
lookup_fresh limit next bid es a h = elim (Option-cases (lookup_block es bid)) [
  | inl absent ↦ absent
  | inr (e, found) ↦
      let old = lookup-IsOld limit next es bid a found in absurd (omega (arith, old.0.older, old.1))
]

total_sum :
    (payload : List ℕ)
    → length payload ≤ max_block_data
    → (total_of payload ≡ (length payload + 79) / 64 * 64)
      × (align_up (total_of payload) block_align ≡ total_of payload)
total_sum payload small =
    let sum : total_of payload ≡ (length payload + 79) / 64 * 64 =
      omega (arith, align_up_64 (length payload + 16) (omega arith)) in
    (sum, omega (arith, align_up_64 (total_of payload) (omega arith)))

module _ (w w1 : NdbWriter) (payload : List ℕ) (internal : Bool) (ib : ℕ) (s : IsStore w)
    (bytes : All IsByte payload) (small : length payload ≤ max_block_data)
    (few : w.next_bid_index < 2 ^ 60) (room : w.cursor + block_step < 2 ^ 60)
    (al : IsAllocated w (total_of payload) ib w1) where
  -- Space management leaves the rest of the writer alone.
  same_out : w1.out ≡ w.out
  same_out = ap (λ v. v.out) al.rest

  same_bbt : w1.bbt ≡ w.bbt
  same_bbt = ap (λ v. v.bbt) al.rest

  same_next : w1.next_bid_index ≡ w.next_bid_index
  same_next = ap (λ v. v.next_bid_index) al.rest

  new_cursor : w1.cursor ≡ ib + total_of payload
  new_cursor = ap (λ v. v.cursor) al.rest

  abbrev bid_of : ℕ
  bid_of = make_bid w1.next_bid_index internal

  bid_bounds : (w.next_bid_index * 4 ≤ bid_of) × (bid_of < (w.next_bid_index + 1) * 4)
  bid_bounds = ground (arith, same_next, make_bid_sum w1.next_bid_index internal)

  IsOld-entries : All (IsOld w.cursor w.next_bid_index) w1.bbt
  IsOld-entries = subst (All (IsOld w.cursor w.next_bid_index)) (sym same_bbt) s.old

  IsBlock-ok :
      IsBlock payload
        (total_of payload)
        ib
        bid_of
        (block_bytes payload (total_of payload) ib bid_of)
  IsBlock-ok =
      block_bytes-IsBlock payload (total_of payload) ib bid_of bytes
        (omega (arith, total_sum payload small)) (omega arith) (omega (arith, bid_bounds))

  -- The new entry, and the write behind it.
  abbrev entry : BbtEntry
  entry = record { bid = bid_of; ib = ib; cb = u16 (length payload) }

  abbrev block_write : Write
  block_write = record { ib = ib; bytes = block_bytes payload (total_of payload) ib bid_of }

  found_old :
      (b : ℕ) (e : BbtEntry)
      → lookup_block w.bbt b ≡ some e
      → lookup_block (w1.bbt ++ (entry ∷ [])) b ≡ some e
  found_old b e found =
      let there : lookup_block w1.bbt b ≡ some e = ap (λ t. lookup_block t b) same_bbt ∙ found in
      lookup-append w1.bbt entry b ∙ ap (λ o. or_entry o entry b) there

  found_new : lookup_block (w1.bbt ++ (entry ∷ [])) bid_of ≡ some entry
  found_new =
      let fresh = lookup_fresh w.cursor w.next_bid_index bid_of w1.bbt IsOld-entries bid_bounds.0 in
      lookup-append w1.bbt entry bid_of
      ∙ ap (λ o. or_entry o entry bid_of) fresh
      ∙ ap (λ t. if t then some entry else none) (==-refl bid_of)

  kept_block :
      (b : ℕ) (old : List ℕ)
      → read_block w b ≡ some old
      → read_block (stored w1 payload internal ib) b ≡ some old
  kept_block b old h = elim (Option-cases (lookup_block w.bbt b)) [
    | inl absent ↦ absurd (cc (h, read_absent w b absent))
    | inr (e, found) ↦
        let placed = (lookup-IsOld w.cursor w.next_bid_index w.bbt b s.old found).0 in
        read_found (stored w1 payload internal ib) b e (found_old b e found)
        ∙ ap some (
            read_out w1.out.writes block_write e.ib e.cb
              (inl (omega (arith, placed.below, al.at_or_behind)))
            ∙ ap (λ o. read o.writes e.ib e.cb) same_out)
        ∙ sym (read_found w b e found)
        ∙ h
  ]

  new_block : read_block (stored w1 payload internal ib) bid_of ≡ some payload
  new_block =
      read_found (stored w1 payload internal ib) bid_of entry found_new
      ∙ ap some (
          ap (read (stored w1 payload internal ib).out.writes ib) cb_fits
          ∙ read_in w1.out.writes block_write ib (length payload) (omega arith)
              (omega (arith, IsBlock-ok.size, total_sum payload small))
          ∙ ap (λ o. slice block_write.bytes o (length payload)) {y = 0} (omega arith)
          ∙ IsBlock-ok.content)
    where
      cb_fits : u16 (length payload) ≡ length payload
      cb_fits = omega arith

  on_disk-IsBlock :
      IsBlock payload
        (total_of payload)
        ib
        bid_of
        (read (stored w1 payload internal ib).out.writes ib (total_of payload))
  on_disk-IsBlock = subst (IsBlock payload (total_of payload) ib bid_of) (sym whole) IsBlock-ok
    where
      whole :
          read (stored w1 payload internal ib).out.writes ib (total_of payload) ≡ block_write.bytes
      whole =
          read_in w1.out.writes block_write ib (total_of payload) (omega arith)
            (omega (arith, IsBlock-ok.size))
          ∙ ap (λ o. slice block_write.bytes o (total_of payload)) {y = 0} (omega arith)
          ∙ take_all (total_of payload) block_write.bytes (omega (arith, IsBlock-ok.size))

  stored-IsStore : IsStore (stored w1 payload internal ib)
  stored-IsStore = record {
    space = record {
      behind = omega (arith, new_cursor, al.at_or_behind, s.space.behind);
      aligned = omega (arith, new_cursor, al.aligned, total_sum payload small);
      small = omega (arith, new_cursor, al.near, total_sum payload small);
      maps = al.grows.valid;
    };
    takes =
        subst (λ o. Takes (record o { writes = block_write ∷ o.writes })) (sym same_out)
          (record { good = s.takes.good; no_fault = s.takes.no_fault });
    old =
        All-append (IsOld w1.cursor (w1.next_bid_index + 1)) w1.bbt (entry ∷ [])
          (IsOld-mono w.cursor w.next_bid_index w1.cursor (w1.next_bid_index + 1) w1.bbt
            (omega (arith, new_cursor, al.at_or_behind)) (omega (arith, same_next)) IsOld-entries)
          (
            record {
              below = omega (arith, new_cursor, total_sum payload small);
              older = omega (arith, bid_bounds, same_next);
            },
            tt,
          );
  }

  stored-IsStored : IsStored w payload internal bid_of (stored w1 payload internal ib)
  stored-IsStored = record {
    store = stored-IsStore;
    extends = record { next = omega (arith, same_next); kept = kept_block };
    content = new_block;
    kind = (bid_roundtrip w1.next_bid_index internal (omega (arith, same_next))).0;
    small_bid = omega (arith, bid_bounds);
    growth = omega (arith, new_cursor, al.near, total_sum payload small);
    next = omega (arith, same_next);
    on_disk = (ib, al.aligned, on_disk-IsBlock);
  }

-- On a disk that takes every write, and with room for the positions in 64 bits, `emitBlock` stores a
-- payload of at most 8176 bytes: a reader finds it under the BID returned, whose internal bit is the
-- one asked for; the block stands at a multiple of 64 with a trailer that fits it; every block stored
-- before is still read as it was; and the writer is as ready for the next block.
pub emit_block-IsStored :
    (payload : List ℕ) (internal : Bool) (w : NdbWriter)
    → IsStore w
    → All IsByte payload
    → length payload ≤ max_block_data
    → w.next_bid_index < 2 ^ 60
    → w.cursor + block_step < 2 ^ 60
    → (bid : ℕ) × (w' : NdbWriter) × (emit_block payload internal w ≡ (ok bid, w'))
      × IsStored w payload internal bid w'
emit_block-IsStored payload internal w s bytes small few room =
    let (ib, w1, done, al) =
      allocate_lem (total_of payload) w s.space (omega (arith, total_sum payload small)) in
    let exact : IsAllocated w (total_of payload) ib w1 =
      subst (λ n. IsAllocated w n ib w1) (total_sum payload small).1 al in
    (
      make_bid w1.next_bid_index internal,
      stored w1 payload internal ib,
      emit_block_allocated payload internal w w1 ib small done (
          subst Takes (sym (same_out w w1 payload internal ib s bytes small few room exact))
            s.takes),
      stored-IsStored w w1 payload internal ib s bytes small few room exact,
    )
