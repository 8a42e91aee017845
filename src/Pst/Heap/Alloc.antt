-- ===== src/Pst/Heap/Alloc.antt =====
-- `alloc` of src/pst/heap.cpp: the choice of the block, and what an allocation gives.
use imap2pst.Base.{
  ℕ, zero, suc, ◌+◌, ◌-◌, ◌^◌, ◌≤◌, ◌<◌, ◌≡◌, refl, sym, ap, subst, ◌∙◌, arith, List, [], ◌∷◌, ◌++◌,
  false, not, ◌||◌, Bool-cases, inl, inr, some, ltb, leb, ltb→lt, ltb→ge, length, get_or,
  length-append, get_or-append_left, get_or_past,
}
use imap2pst.Pst.Format.{max_block_data, hid_block_index, hid_alloc_index}
use imap2pst.Pst.Ndb.State.{ok}
use imap2pst.Pst.Heap.{
  Block, HeapNode, empty_block, page_map_size, block_header_size, max_alloc_size, fits, place,
  add_block, alloc,
}
use imap2pst.Pst.Heap.Hid.{item_at, lookup_hid, total_size, IsRoomy, IsHeap, IsAllocated}
use imap2pst.Pst.Heap.Place.{place-IsAllocated}

fresh_block_room :
    (i n : ℕ)
    → n ≤ max_alloc_size
    → block_header_size i + 0 + n + page_map_size 1 + 1 ≤ max_block_data
unfolding block_header_size
fresh_block_room i n h = ground arith

get_or-append_empty :
    (bs : List Block) (i : ℕ)
    → get_or (bs ++ (empty_block ∷ [])) i empty_block ≡ get_or bs i empty_block
get_or-append_empty [] zero = refl
get_or-append_empty [] (suc i) = refl
get_or-append_empty (b ∷ bs) zero = refl
get_or-append_empty (b ∷ bs) (suc i) = get_or-append_empty bs i

add_block-IsHeap : (h : HeapNode) → IsHeap h → IsHeap (add_block h)
unfolding total_size
add_block-IsHeap h v = record {
  some_block = omega (arith, length-append h.blocks (empty_block ∷ []));
  roomy = λ i k. elim (Bool-cases (ltb i (length h.blocks))) [
    | inl old ↦
        subst (IsRoomy i)
          (sym (get_or-append_left h.blocks (empty_block ∷ []) i empty_block (ltb→lt _ _ old)))
          (v.roomy i (ltb→lt _ _ old))
    | inr new ↦
        subst (IsRoomy i)
          (sym
            (get_or-append_empty h.blocks i ∙ get_or_past h.blocks i empty_block (ltb→ge _ _ new)))
          (record {
            used = refl;
            few = omega arith;
            room = omega (arith, fresh_block_room i 0 (omega arith));
          })
  ];
}

item_at-append :
    (bs : List Block) (block n : ℕ) {item : List ℕ}
    → item_at bs block n ≡ some item
    → item_at (bs ++ (empty_block ∷ [])) block n ≡ some item
unfolding item_at
item_at-append bs block zero e = e
item_at-append [] block (suc n) e = absurd (cc)
item_at-append (b ∷ bs) zero (suc n) e = e
item_at-append (b ∷ bs) (suc block) (suc n) e = item_at-append bs block (suc n) e

add_block_kept :
    (h : HeapNode) (old : ℕ) (item : List ℕ)
    → lookup_hid h old ≡ some item
    → lookup_hid (add_block h) old ≡ some item
unfolding lookup_hid
add_block_kept h old item = item_at-append h.blocks (hid_block_index old) (hid_alloc_index old)

alloc_new :
    (h : HeapNode) (bytes : List ℕ)
    → IsHeap h
    → length bytes ≤ max_alloc_size
    → length h.blocks < 2 ^ 16
    → (hid : ℕ) × (h' : HeapNode) × (place (length (add_block h).blocks - 1) bytes (add_block h)
        ≡ (ok hid, h'))
      × IsAllocated h bytes hid h'
alloc_new h bytes v small few =
    let i : ℕ = length (add_block h).blocks - 1 in
    let at_end : i ≡ length h.blocks = omega (arith, length-append h.blocks (empty_block ∷ [])) in
    let empty : get_or (add_block h).blocks i empty_block ≡ empty_block =
      ap (λ k. get_or (add_block h).blocks k empty_block) at_end
      ∙ get_or-append_empty h.blocks (length h.blocks)
      ∙ get_or_past h.blocks (length h.blocks) empty_block (omega arith) in
    let (e, a) =
      place-IsAllocated (add_block h) i bytes (add_block-IsHeap h v)
        (omega (arith, length-append h.blocks (empty_block ∷ []))) (omega arith)
        (subst (λ (b : Block). length b.items < 2047) (sym empty) (omega arith))
        (subst
          (λ (b : Block).
            block_header_size i + b.used + length bytes + page_map_size (length b.items + 1) + 1
            ≤ max_block_data)
          (sym empty) (fresh_block_room i (length bytes) small)) in
    (
      _,
      _,
      e,
      record {
        heap = a.heap;
        found = a.found;
        is_hid = a.is_hid;
        kept = λ old item o. a.kept old item (add_block_kept h old item o);
      },
    )

fits-room :
    (h : HeapNode) (i n : ℕ)
    → (not (fits h i n) || leb 2047 (length (get_or h.blocks i empty_block).items)) ≡ false
    → (length (get_or h.blocks i empty_block).items < 2047)
      × (block_header_size i
            + (get_or h.blocks i empty_block).used
            + n
            + page_map_size (length (get_or h.blocks i empty_block).items + 1)
            + 1
          ≤ max_block_data)
unfolding fits
fits-room h i n e = ground arith

not_larger : (n m : ℕ) → n ≤ m → ltb m n ≡ false
not_larger n m h = ground arith

-- On a heap whose blocks are well formed and fewer than 65536, an allocation of at most `maxAllocSize` bytes
-- succeeds: its HID is told from an NID and stands for the bytes, every HID given out before still stands for
-- what it did, and every block, the new one included, keeps room for its page map.
pub alloc-IsAllocated :
    (h : HeapNode) (bytes : List ℕ)
    → IsHeap h
    → length bytes ≤ max_alloc_size
    → length h.blocks < 2 ^ 16
    → (hid : ℕ) × (h' : HeapNode) × (alloc bytes h ≡ (ok hid, h')) × IsAllocated h bytes hid h'
unfolding alloc
alloc-IsAllocated h bytes v small few =
    let i : ℕ = length h.blocks - 1 in
    let i' : ℕ = length (add_block h).blocks - 1 in
    let in_range : ltb 0xFFFF i' ≡ false =
      not_larger i' 0xFFFF (omega (arith, length-append h.blocks (empty_block ∷ []))) in
    rw (not_larger _ _ small)
      (elim (Bool-cases (
        not (fits h i (length bytes)) || leb 2047 (length (get_or h.blocks i empty_block).items))) [
          | inl full ↦ rw (full, in_range) (alloc_new h bytes v small few)
          | inr free ↦
              let r = fits-room h i (length bytes) free in
              let (e, a) =
                place-IsAllocated h i bytes v (omega (arith, v.some_block)) (omega arith) r.0 r.1 in
              rw free (_, _, e, a)
        ])
