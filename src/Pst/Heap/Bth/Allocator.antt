-- ===== src/Pst/Heap/Bth/Allocator.antt =====
-- What `buildBthInto` of src/pst/heap.h needs of a heap.
use imap2pst.Base.{ℕ, suc, ◌^◌, ◌≤◌, ◌<◌, ◌≡◌, List, Option, some, length}
use imap2pst.Pst.Ndb.State.{ok}
use imap2pst.Pst.Run.{Run}

-- Every HID of `h` stands for the same bytes in `h'`.
abbrev pub Keeps : {H : Type 0} → (H → ℕ → Option (List ℕ)) → H → H → Type 0
Keeps lookup h h' = (old : ℕ) (item : List ℕ) → lookup h old ≡ some item → lookup h' old ≡ some item

-- An allocation that left room for `k` more: what `hid` stands for now, and what is kept.
pub record IsStored {H : Type 0} (lookup : H → ℕ → Option (List ℕ)) (Room : ℕ → H → Type 0) (k : ℕ)
    (h : H) (bytes : List ℕ) (hid : ℕ) (h' : H) : Type 0 where
  pub room : Room k h'
  pub found : lookup h' hid ≡ some bytes
  pub some_hid : 0 < hid
  pub small : hid < 2 ^ 32
  pub keeps : Keeps lookup h h'

-- `Room k h`: the heap `h` takes `k` allocations of at most `max_alloc` bytes each.
pub record IsAllocator {H : Type 0} (alloc : List ℕ → Run H ℕ) (lookup : H → ℕ → Option (List ℕ))
    (Room : ℕ → H → Type 0) (max_alloc : ℕ) : Type 0 where
  pub stores :
      (k : ℕ) (h : H) (bytes : List ℕ)
      → Room (suc k) h
      → length bytes ≤ max_alloc
      → (hid : ℕ) × (h' : H) × (alloc bytes h ≡ (ok hid, h'))
        × IsStored lookup Room k h bytes hid h'
  pub weaker : (j k : ℕ) (h : H) → j ≤ k → Room k h → Room j h
