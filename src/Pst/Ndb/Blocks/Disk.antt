-- ===== src/Pst/Ndb/Blocks/Disk.antt =====
-- Reads of the file behind `writeAt` of src/pst/ndb.cpp: the last write is read back, and a read
-- that it does not touch sees what was there before.
use imap2pst.Base.{
  ℕ, zero, suc, ◌+◌, ◌-◌, ◌≤◌, ◌<◌, ◌≡◌, refl, sym, ap₂, ◌∙◌, ◌⊎◌, arith, List, [], ◌∷◌, length,
  get_or, slice,
}
use imap2pst.Pst.Ndb.State.{Write, byte_at, read}

module _ (ws : List Write) (w : Write) where
  byte_at_out :
      (pos : ℕ)
      → (pos < w.ib) ⊎ (w.ib + length w.bytes ≤ pos)
      → byte_at (w ∷ ws) pos ≡ byte_at ws pos
  byte_at_out pos h = ground arith

  pub read_out :
      (pos n : ℕ)
      → (pos + n ≤ w.ib) ⊎ (w.ib + length w.bytes ≤ pos)
      → read (w ∷ ws) pos n ≡ read ws pos n
  read_out pos zero h = refl
  read_out pos (suc n) h =
      ap₂ ◌∷◌ (byte_at_out pos (omega arith)) (read_out (suc pos) n (omega arith))

  byte_at_in :
      (pos : ℕ)
      → w.ib ≤ pos
      → pos < w.ib + length w.bytes
      → byte_at (w ∷ ws) pos ≡ get_or w.bytes (pos - w.ib) 0
  byte_at_in pos h k = ground arith

  slice_step :
      (xs : List ℕ) (o n : ℕ)
      → o < length xs
      → slice xs o (suc n) ≡ get_or xs o 0 ∷ slice xs (suc o) n
  slice_step [] o n h = elim h [ ]
  slice_step (x ∷ xs) zero n h = refl
  slice_step (x ∷ xs) (suc o) n h = slice_step xs o n (omega arith)

  slice_next :
      (o' o n : ℕ)
      → o' ≡ suc o
      → o < length w.bytes
      → (get_or w.bytes o 0 ∷ slice w.bytes o' n) ≡ slice w.bytes o (suc n)
  slice_next o' o n e h = rw e (sym (slice_step w.bytes o n h))

  pub read_in :
      (pos n : ℕ)
      → w.ib ≤ pos
      → pos + n ≤ w.ib + length w.bytes
      → read (w ∷ ws) pos n ≡ slice w.bytes (pos - w.ib) n
  read_in pos zero h k = refl
  read_in pos (suc n) h k =
      ap₂ ◌∷◌ (byte_at_in pos h (omega arith)) (read_in (suc pos) n (omega arith) (omega arith))
      ∙ slice_next (suc pos - w.ib) (pos - w.ib) n (omega arith) (omega arith)
