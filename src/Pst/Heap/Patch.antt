-- ===== src/Pst/Heap/Patch.antt =====
-- `patch` of src/pst/heap.cpp on every branch.
use imap2pst.Base.{
  ℕ, zero, suc, ◌-◌, ◌<◌, ◌≡◌, refl, ap, ◌∙◌, arith, List, [], ◌∷◌, Bool, true, false, not, ◌||◌,
  some, ltb, leb, ◌==◌, if◌then◌else◌, length, get_or, get_elem?, set, get_elem?-lt,
  get_elem?-set_self,
}
use imap2pst.Pst.Format.{hid_block_index, hid_alloc_index}
use imap2pst.Pst.Ndb.State.{Result, ok, err, patch_changes_size}
use imap2pst.Pst.Heap.{Block, HeapNode, empty_block, patch_at, patch}
use imap2pst.Pst.Heap.Hid.{item_at, lookup_hid}

found_in :
    (bs : List Block) (block n : ℕ) {item : List ℕ}
    → item_at bs block (suc n) ≡ some item
    → (block < length bs) × (get_elem? (get_or bs block empty_block).items n ≡ some item)
unfolding item_at
found_in [] block n e = absurd (cc)
found_in (b ∷ bs) zero n e = (omega arith, e)
found_in (b ∷ bs) (suc k) n e = let r = found_in bs k n e in (omega (arith, r.0), r.1)

get_or-get_elem? :
    (xs : List (List ℕ)) (i : ℕ) {a : List ℕ} → get_elem? xs i ≡ some a → get_or xs i [] ≡ a
get_or-get_elem? [] i e = absurd (cc)
get_or-get_elem? (x ∷ xs) zero e = cc
get_or-get_elem? (x ∷ xs) (suc i) e = get_or-get_elem? xs i e

guard_passes :
    (l m block n : ℕ) → block < l → n < m → (leb l block || (suc n == 0 || ltb m (suc n))) ≡ false
guard_passes l m block n h k = ground arith

-- The heap with `bytes` in place of the allocation `n` of a block, counted from zero.
abbrev patched : HeapNode → ℕ → ℕ → List ℕ → HeapNode
patched h block n bytes =
    let b = get_or h.blocks block empty_block in
    record h { blocks = set h.blocks block (record b { items = set b.items n bytes }) }

-- What `patch` does behind its first guard.
abbrev replaced : HeapNode → ℕ → List ℕ → ℕ → List ℕ → Result (Unit {0}) × HeapNode
replaced h block bytes n old =
    if not (length old == length bytes)
    then (err patch_changes_size, h)
    else (ok tt, patched h block n bytes)

patch_at_found :
    (h : HeapNode) (block n : ℕ) (bytes item : List ℕ)
    → item_at h.blocks block (suc n) ≡ some item
    → patch_at block (suc n) bytes h ≡ replaced h block bytes n item
unfolding patch_at
patch_at_found h block n bytes item e =
    let f = found_in h.blocks block n e in
    let items = (get_or h.blocks block empty_block).items in
    let before : suc n - 1 ≡ n = omega arith in
    rw
      (
        patch_at,
        guard_passes (length h.blocks) (length items) block n f.0 (get_elem?-lt items n f.1),
      )
      (ap (λ (m : ℕ). replaced h block bytes m (get_or items m [])) before
        ∙ ap (replaced h block bytes n) (get_or-get_elem? items n f.1))

patched_item :
    (h : HeapNode) (block n : ℕ) (bytes item : List ℕ)
    → item_at h.blocks block (suc n) ≡ some item
    → item_at (patched h block n bytes).blocks block (suc n) ≡ some bytes
unfolding item_at
patched_item h block n bytes item e =
    let f = found_in h.blocks block n e in
    let b = get_or h.blocks block empty_block in
    rw (item_at, get_elem?-set_self h.blocks block (record b { items = set b.items n bytes }) f.0)
      (get_elem?-set_self b.items n bytes (get_elem?-lt b.items n f.1))

if-not : {A : Type 0} → (c : Bool) (x y : A) → (if not c then x else y) ≡ (if c then y else x)
if-not true x y = refl
if-not false x y = refl

patch_at_lem :
    (h : HeapNode) (block index : ℕ) (bytes item : List ℕ)
    → item_at h.blocks block index ≡ some item
    → (h' : HeapNode) × (patch_at block index bytes h
        ≡ (if length item == length bytes then (ok tt, h') else (err patch_changes_size, h)))
      × (item_at h'.blocks block index ≡ some bytes)
unfolding item_at
patch_at_lem h block zero bytes item e = absurd (cc)
patch_at_lem h block (suc n) bytes item e = (
  patched h block n bytes,
  patch_at_found h block n bytes item e ∙ if-not (length item == length bytes) _ _,
  patched_item h block n bytes item e,
)

-- An HID that stands for an allocation is patched exactly where the sizes agree: then it stands for the new
-- bytes; otherwise the call throws and the heap stays as it is.
pub patch_lem :
    (h : HeapNode) (hid : ℕ) (bytes item : List ℕ)
    → lookup_hid h hid ≡ some item
    → (h' : HeapNode) × (patch hid bytes h
        ≡ (if length item == length bytes then (ok tt, h') else (err patch_changes_size, h)))
      × (lookup_hid h' hid ≡ some bytes)
unfolding patch lookup_hid
patch_lem h hid bytes item e =
    patch_at_lem h (hid_block_index hid) (hid_alloc_index hid) bytes item e
