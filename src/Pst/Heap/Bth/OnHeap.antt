-- ===== src/Pst/Heap/Bth/OnHeap.antt =====
-- `buildBth` of src/pst/heap.h: the tree on a `HeapNode`.
use imap2pst.Base.{
  ℕ, zero, suc, ◌+◌, ◌-◌, ◌*◌, ◌^◌, ◌≤◌, ◌<◌, ◌≡◌, subst, arith, List, [], ◌∷◌, ◌++◌, All, some,
  not, ◌||◌, Bool-cases, inl, inr, ltb, leb, length, get_or, length-append, length-set, u16, u32,
  ◌<<<◌,
}
use imap2pst.Base.Bits.{bit_or-lt}
use imap2pst.Pst.Format.{make_hid, hid_alloc_index}
use imap2pst.Pst.Ndb.State.{Result, ok, err}
use imap2pst.Pst.Heap.{HeapNode, empty_block, max_alloc_size, fits, place, add_block, alloc}
use imap2pst.Pst.Heap.Hid.{item_at, lookup_hid, IsHeap}
use imap2pst.Pst.Heap.Alloc.{alloc-IsAllocated}
use imap2pst.Pst.Heap.Bth.{BthRecord, build_bth_into}
use imap2pst.Pst.Heap.Bth.Pages.{IsRecord}
use imap2pst.Pst.Heap.Bth.Allocator.{IsAllocator}
use imap2pst.Pst.Heap.Bth.Build.{HasTree, build_bth_into-HasTree}

-- The heap is well formed and has fewer blocks than HIDs can tell, with room for `k` more.
HeapRoom : ℕ → HeapNode → Type 0
HeapRoom k h = IsHeap h × (length h.blocks + k ≤ 2 ^ 16)

make_hid-lt : (b a : ℕ) → make_hid b a < 2 ^ 32
unfolding make_hid
make_hid-lt b a = bit_or-lt 32 (u32 (b <<< 16)) (u32 (a <<< 5)) (omega arith) (omega arith)

-- What an allocation does to the size of the heap, and that its HID fits into 32 bits.
IsSmallStep : ℕ → Result ℕ × HeapNode → Type 0
IsSmallStep n (ok hid, h') = (hid < 2 ^ 32) × (length h'.blocks ≤ n)
IsSmallStep n (err e, h') = length h'.blocks ≤ n

place-IsSmallStep :
    (i n : ℕ) (bytes : List ℕ) (h : HeapNode)
    → length h.blocks ≤ n
    → IsSmallStep n (place i bytes h)
unfolding place IsSmallStep
place-IsSmallStep i n bytes h le =
    let b = get_or h.blocks i empty_block in
    (
      make_hid-lt (u16 i) (u16 (length (b.items ++ (bytes ∷ [])))),
      omega (
        arith,
        le,
        length-set h.blocks i
            (record { items = b.items ++ (bytes ∷ []); used = b.used + length bytes }),
      ),
    )

alloc-IsSmallStep :
    (bytes : List ℕ) (h : HeapNode) → IsSmallStep (length h.blocks + 1) (alloc bytes h)
unfolding alloc IsSmallStep
alloc-IsSmallStep bytes h =
    let i : ℕ = length h.blocks - 1 in
    let added : length (add_block h).blocks ≡ length h.blocks + 1 =
      length-append h.blocks (empty_block ∷ []) in
    elim (Bool-cases (ltb max_alloc_size (length bytes))) [
      | inl large ↦ rw large (omega arith)
      | inr small ↦
          rw small
            (elim (Bool-cases (
              not (fits h i (length bytes))
              || leb 2047 (length (get_or h.blocks i empty_block).items))) [
                | inl full ↦
                    rw full (elim (Bool-cases (ltb 0xFFFF (length (add_block h).blocks - 1))) [
                      | inl many ↦ rw many (omega (arith, added))
                      | inr few ↦
                          rw few (place-IsSmallStep _ _ bytes (add_block h) (omega (arith, added)))
                    ])
                | inr free ↦ rw free (place-IsSmallStep i _ bytes h (omega arith))
              ])
    ]

found_some : (h : HeapNode) (hid : ℕ) {bytes : List ℕ} → lookup_hid h hid ≡ some bytes → 0 < hid
unfolding lookup_hid item_at hid_alloc_index
found_some h zero e = absurd (cc)
found_some h (suc n) e = omega arith

alloc-IsAllocator : IsAllocator alloc lookup_hid HeapRoom max_alloc_size
unfolding HeapRoom IsSmallStep
alloc-IsAllocator = record {
  stores = λ k h bytes free fits.
      let (hid, h', e, a) = alloc-IsAllocated h bytes free.0 fits (omega (arith, free.1)) in
      let facts = subst (IsSmallStep (length h.blocks + 1)) e (alloc-IsSmallStep bytes h) in
      (
        hid,
        h',
        e,
        record {
          room = (a.heap, omega (arith, free.1, facts.1));
          found = a.found;
          some_hid = found_some h' hid a.found;
          small = facts.0;
          keeps = a.kept;
        },
      );
  weaker = λ j k h le free. (free.0, omega (arith, le, free.1));
}

-- On a well-formed heap with room for as many blocks, records whose keys and values have the sizes
-- `cb_key` and `cb_ent` go into a tree that is read back from its HID: all records, sorted by key; and every HID
-- given out before still stands for what it did.
pub build_bth-HasTree :
    (cb_key cb_ent : ℕ) (records : List BthRecord) (h : HeapNode)
    → IsHeap h
    → All (IsRecord cb_key cb_ent) records
    → 0 < cb_key
    → cb_key < 200
    → cb_ent < 256
    → length h.blocks + (3 * length records + 1) ≤ 2 ^ 16
    → HasTree lookup_hid cb_key cb_ent (build_bth_into alloc max_alloc_size cb_key cb_ent) records h
unfolding HeapRoom
build_bth-HasTree cb_key cb_ent records h v vs some_key small_key small_ent free =
    build_bth_into-HasTree alloc-IsAllocator cb_key cb_ent records h vs some_key (omega arith)
      small_ent (omega arith) (omega arith) (omega arith) (v, free)
