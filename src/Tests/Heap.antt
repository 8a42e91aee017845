-- ===== src/Tests/Heap.antt =====
-- Runs of src/pst/heap.cpp.
use imap2pst.Base.{ℕ, zero, suc, ◌<◌, ◌≡◌, refl, arith, List, [], ◌∷◌, get_or}
use imap2pst.Pst.Ndb.State.{ok, err, patch_changes_size}
use imap2pst.Pst.Format.{hid_block_index, hid_alloc_index}
use imap2pst.Pst.Heap.Patch.{patch_lem}
use imap2pst.Pst.Heap.{patch}
use imap2pst.Base.{some, ◌==◌, if◌then◌else◌, length}
use imap2pst.Pst.Heap.{HeapNode, new_heap, empty_block, block_header_size, alloc}
use imap2pst.Pst.Heap.Alloc.{alloc-IsAllocated}
use imap2pst.Pst.Heap.Hid.{IsHeap, IsRoomy, IsAllocated, total_size, lookup_hid, item_at}

abbrev pub property_heap : HeapNode
property_heap = new_heap 0xBC

pub property_heap-IsHeap : IsHeap property_heap
unfolding total_size block_header_size
property_heap-IsHeap = record { some_block = omega arith; roomy = λ i h. first i h }
  where
    first : (i : ℕ) → i < 1 → IsRoomy i (get_or property_heap.blocks i empty_block)
    first zero h = record { used = refl; few = omega arith; room = omega arith }
    first (suc i) h = absurd (omega arith)

alloc_two_bytes :
    (hid : ℕ) × (h' : HeapNode) × (alloc (7 ∷ 8 ∷ []) property_heap ≡ (ok hid, h'))
    × IsAllocated property_heap (7 ∷ 8 ∷ []) hid h'
alloc_two_bytes =
    alloc-IsAllocated property_heap (7 ∷ 8 ∷ []) property_heap-IsHeap (omega arith) (omega arith)

abbrev one_item : HeapNode
one_item = record {
  client_sig = 0xBC;
  user_root = 0;
  blocks = record { items = (7 ∷ 8 ∷ []) ∷ []; used = 2 } ∷ [];
}

first_item : lookup_hid one_item 0x20 ≡ some (7 ∷ 8 ∷ [])
unfolding lookup_hid item_at hid_block_index hid_alloc_index
first_item = refl

abbrev old_bytes : List ℕ
old_bytes = 7 ∷ 8 ∷ []

abbrev new_bytes : List ℕ
new_bytes = 1 ∷ 2 ∷ []

patch_first :
    (h' : HeapNode) × (patch 0x20 new_bytes one_item ≡ (
      if length old_bytes == length new_bytes
      then (ok tt, h')
      else (err patch_changes_size, one_item)))
    × (lookup_hid h' 0x20 ≡ some new_bytes)
patch_first = patch_lem one_item 0x20 new_bytes old_bytes first_item
