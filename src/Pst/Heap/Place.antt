-- ===== src/Pst/Heap/Place.antt =====
-- The end of `alloc` of src/pst/heap.cpp: an allocation put into a block that has room for it.
use imap2pst.Base.{
  ℕ, zero, suc, ◌+◌, ◌^◌, ◌≤◌, ◌<◌, ◌≡◌, refl, sym, ap, subst, ◌∙◌, arith, List, [], ◌∷◌, ◌++◌,
  true, Bool-cases, inl, inr, none, some, ◌==◌, ==→eq, length, get_or, get_elem?, set, u16,
  length-append, length-set, get_elem?-append_left, get_elem?-append_end, get_elem?-lt,
  get_elem?-set_self, get_elem?-set_ne, get_or-set_self, get_or-set_ne, ap₂,
}
use imap2pst.Pst.Format.{max_block_data, make_hid, hid_block_index, hid_alloc_index, hnid_is_hid}
use imap2pst.Pst.Format.Ids.{hid_roundtrip}
use imap2pst.Pst.Ndb.State.{ok}
use imap2pst.Pst.Heap.{Block, HeapNode, empty_block, page_map_size, block_header_size, place}
use imap2pst.Pst.Heap.Hid.{
  item_at, lookup_hid, IsRoomy, IsHeap, IsAllocated, get_elem?-get_or, total_size-append,
}

-- An allocation in the block `i`, which has room for it.
module _ (h : HeapNode) (i : ℕ) (bytes : List ℕ) (valid : IsHeap h) (inside : i < length h.blocks)
    (few : i < 2 ^ 16) where
  abbrev before : Block
  before = get_or h.blocks i empty_block

  abbrev after : Block
  after = record { items = before.items ++ (bytes ∷ []); used = before.used + length bytes }

  abbrev placed : HeapNode
  placed = record h { blocks = set h.blocks i after }

  abbrev new_hid : ℕ
  new_hid = make_hid (u16 i) (u16 (length after.items))

  module _ (free : length before.items < 2047)
      (room : block_header_size i
          + before.used
          + length bytes
          + page_map_size (length before.items + 1)
          + 1
        ≤ max_block_data) where
    one_more : length after.items ≡ length before.items + 1
    one_more = length-append before.items (bytes ∷ [])

    fields :
        (hid_block_index new_hid ≡ i)
        × (hid_alloc_index new_hid ≡ length before.items + 1)
        × (hnid_is_hid new_hid ≡ true)
    fields =
        let exact : new_hid ≡ make_hid i (length before.items + 1) =
          ap (λ b. make_hid b (u16 (length after.items))) {y = i} (omega arith)
          ∙ ap (make_hid i) {y = length before.items + 1} (omega (arith, one_more)) in
        let r = hid_roundtrip i (length before.items + 1) few (omega arith) in
        (ap hid_block_index exact ∙ r.0, ap hid_alloc_index exact ∙ r.1, ap hnid_is_hid exact ∙ r.2)

    after-IsRoomy : IsRoomy i after
    after-IsRoomy =
        let old = valid.roomy i inside in
        record {
          used = omega (arith, old.used, total_size-append before.items bytes);
          few = omega (arith, one_more);
          room = omega (arith, one_more);
        }

    placed-IsHeap : IsHeap placed
    placed-IsHeap = record {
      some_block = omega (arith, length-set h.blocks i after);
      roomy = λ j k. elim (Bool-cases (i == j)) [
        | inl same ↦
            let e : i ≡ j = ==→eq i j same in
            subst (λ t. IsRoomy t (get_or (set h.blocks i after) t empty_block)) e
              (subst (IsRoomy i) (sym (get_or-set_self h.blocks i after empty_block inside))
                after-IsRoomy)
        | inr other ↦
            subst (IsRoomy j) (sym (get_or-set_ne h.blocks i j after empty_block (ground arith)))
              (valid.roomy j (omega (arith, length-set h.blocks i after)))
      ];
    }

    placed_found : lookup_hid placed new_hid ≡ some bytes
    unfolding lookup_hid item_at
    placed_found =
        let index : hid_alloc_index new_hid ≡ suc (length before.items) = fields.1 ∙ omega arith in
        ap₂ (item_at placed.blocks) fields.0 index
        ∙ rw (item_at, get_elem?-set_self h.blocks i after inside)
            (get_elem?-append_end before.items [] bytes)

  item_kept :
      (block n : ℕ) (item : List ℕ)
      → item_at h.blocks block n ≡ some item
      → item_at placed.blocks block n ≡ some item
  unfolding item_at
  item_kept block zero item e = e
  item_kept block (suc n) item e = elim (Bool-cases (i == block)) [
    | inl same ↦
        let here : i ≡ block = ==→eq i block same in
        let old = rw (← here, item_at, get_elem?-get_or h.blocks i empty_block inside) at e in
        subst
          (λ t.
            elim (get_elem? (set h.blocks i after) t) [ none ↦ none | some b ↦ get_elem? b.items n ]
            ≡ some item)
          here
          (rw (get_elem?-set_self h.blocks i after inside) (
            get_elem?-append_left before.items (bytes ∷ []) n (get_elem?-lt before.items n old)
            ∙ old))
    | inr other ↦ rw (item_at, get_elem?-set_ne h.blocks i block after (ground arith)) e
  ]

  pub place-IsAllocated :
      length before.items < 2047
      → block_header_size i
          + before.used
          + length bytes
          + page_map_size (length before.items + 1)
          + 1
        ≤ max_block_data
      → (place i bytes h ≡ (ok new_hid, placed)) × IsAllocated h bytes new_hid placed
  unfolding place lookup_hid
  place-IsAllocated free room = (
    refl,
    record {
      heap = placed-IsHeap free room;
      found = placed_found free room;
      is_hid = (fields free room).2;
      kept = λ old item. item_kept (hid_block_index old) (hid_alloc_index old) item;
    },
  )
