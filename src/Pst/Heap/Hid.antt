-- ===== src/Pst/Heap/Hid.antt =====
-- What an HID of the heap of src/pst/heap.cpp stands for, and well-formed heaps.
use imap2pst.Base.{
  ℕ, zero, suc, ◌+◌, ◌≤◌, ◌<◌, ◌≡◌, refl, arith, List, [], ◌∷◌, ◌++◌, true, Option, none, some,
  length, get_or, get_elem?,
}
use imap2pst.Pst.Format.{max_block_data, hid_block_index, hid_alloc_index, hnid_is_hid}
use imap2pst.Pst.Heap.{Block, HeapNode, empty_block, page_map_size, block_header_size}

-- What a block's number and an allocation's, which is counted from one, stand for.
unfoldable pub item_at : List Block → ℕ → ℕ → Option (List ℕ)
item_at blocks block zero = none
item_at blocks block (suc n) = elim (get_elem? blocks block) [
  | none ↦ none
  | some b ↦ get_elem? b.items n
]

-- What an HID stands for.
unfoldable pub lookup_hid : HeapNode → ℕ → Option (List ℕ)
lookup_hid h hid = item_at h.blocks (hid_block_index hid) (hid_alloc_index hid)

unfoldable pub total_size : List (List ℕ) → ℕ
total_size [] = 0
total_size (item ∷ items) = length item + total_size items

-- The block `i`: its header, its allocations and its page map fit into 8176 bytes, with a byte to spare.
pub record IsRoomy (i : ℕ) (b : Block) : Type 0 where
  pub used : b.used ≡ total_size b.items
  pub few : length b.items ≤ 2047
  pub room : block_header_size i + b.used + page_map_size (length b.items) + 1 ≤ max_block_data

pub record IsHeap (h : HeapNode) : Type 0 where
  pub some_block : 0 < length h.blocks
  pub roomy : (i : ℕ) → i < length h.blocks → IsRoomy i (get_or h.blocks i empty_block)

-- The heap `h'` has come from `h` by an allocation of `bytes` under `hid`.
pub record IsAllocated (h : HeapNode) (bytes : List ℕ) (hid : ℕ) (h' : HeapNode) : Type 0 where
  pub heap : IsHeap h'
  pub found : lookup_hid h' hid ≡ some bytes
  pub is_hid : hnid_is_hid hid ≡ true
  pub kept :
      (old : ℕ) (item : List ℕ) → lookup_hid h old ≡ some item → lookup_hid h' old ≡ some item

pub get_elem?-get_or :
    {A : Type 0}
    → (xs : List A) (i : ℕ) (d : A) → i < length xs
    → get_elem? xs i ≡ some (get_or xs i d)
get_elem?-get_or [] i d h = absurd (omega arith)
get_elem?-get_or (x ∷ xs) zero d h = refl
get_elem?-get_or (x ∷ xs) (suc i) d h = get_elem?-get_or xs i d (omega arith)

pub total_size-append :
    (xs : List (List ℕ)) (x : List ℕ) → total_size (xs ++ (x ∷ [])) ≡ total_size xs + length x
unfolding total_size
total_size-append [] x = omega arith
total_size-append (y ∷ ys) x = omega (arith, total_size-append ys x)
