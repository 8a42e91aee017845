-- ===== src/Pst/Heap/Bth.antt =====
-- The tree on a heap: `buildBthInto` of src/pst/heap.h, for any heap that has `alloc` and `maxAllocSize`.
pub mod Reader
pub mod Pages
pub mod Allocator
pub mod Levels
pub mod Header
pub mod Build
pub mod OnHeap
use imap2pst.Base.{
  ℕ, zero, suc, ◌+◌, ◌/◌, max, List, [], ◌∷◌, Bool, true, false, ltb, if◌then◌else◌, length, take,
  drop,
}
use imap2pst.Base.Sort.{sort_by}
use imap2pst.Pst.Format.{put8, put32, put_bytes, peek_loop}
use imap2pst.Pst.Ndb.State.{bth_too_deep, unfinished}
use imap2pst.Pst.Run.{Run, ◌>>=◌, return, throw}

-- `BthRecord`: the key in little-endian order, and the value.
pub record BthRecord : Type 0 where
  pub key : List ℕ
  pub value : List ℕ

-- `Level`
pub record BthLevel : Type 0 where
  pub key : List ℕ
  pub hid : ℕ

-- The number that a key stands for, by which the records are sorted.
abbrev pub key_value : List ℕ → ℕ
key_value key = peek_loop 64 key

-- The page of some records: `cb_key` bytes of each key and `cb_ent` of each value.
unfoldable pub leaf_page : ℕ → ℕ → List BthRecord → List ℕ → List ℕ
leaf_page cb_key cb_ent [] page = page
leaf_page cb_key cb_ent (r ∷ rs) page =
    leaf_page cb_key cb_ent rs
      (put_bytes (put_bytes page (take cb_key r.key)) (take cb_ent r.value))

unfoldable pub inter_page : ℕ → List BthLevel → List ℕ → List ℕ
inter_page cb_key [] page = page
inter_page cb_key (l ∷ ls) page =
    inter_page cb_key ls (put32 (put_bytes page (take cb_key l.key)) l.hid)

-- `per_leaf` and `per_inter`: how many entries of a size fit into one allocation, one at least.
unfoldable pub per_page : ℕ → ℕ → ℕ
per_page max_alloc entry = max 1 (max_alloc / entry)

-- `level.front().hid`; the list is never empty there.
unfoldable pub front_hid : List BthLevel → ℕ
front_hid [] = 0
front_hid (l ∷ ls) = l.hid

unfoldable pub bth_header : ℕ → ℕ → ℕ → ℕ → List ℕ
bth_header cb_key cb_ent levels root =
    put32 (put8 (put8 (put8 (put8 [] 0xB5) cb_key) cb_ent) levels) root

module _ {H : Type 0} (alloc : List ℕ → Run H ℕ) (max_alloc cb_key cb_ent : ℕ) where
  -- The loop over the leaf pages, over the records that are left; the fuel is their number.
  unfoldable pub bth_leaves : ℕ → List BthRecord → Run H (List BthLevel)
  bth_leaves zero rs = return []
  bth_leaves (suc fuel) [] = return []
  bth_leaves (suc fuel) (r ∷ more) =
      let rs = r ∷ more in
      let n = per_page max_alloc (cb_key + cb_ent) in
      do
        hid ← alloc (leaf_page cb_key cb_ent (take n rs) [])
        level ← bth_leaves fuel (drop n rs)
        return (record { key = r.key; hid = hid } ∷ level)

  -- The inner loop over a level of pages.
  unfoldable pub bth_next : ℕ → List BthLevel → Run H (List BthLevel)
  bth_next zero ls = return []
  bth_next (suc fuel) [] = return []
  bth_next (suc fuel) (l ∷ more) =
      let ls = l ∷ more in
      let n = per_page max_alloc (cb_key + 4) in
      do
        hid ← alloc (inter_page cb_key (take n ls) [])
        level ← bth_next fuel (drop n ls)
        return (record { key = l.key; hid = hid } ∷ level)

  -- `while (level.size() > 1)`, with the levels so far: the source gives up at the ninth, so that 9 rounds
  -- are enough.
  unfoldable pub bth_levels : ℕ → ℕ → List BthLevel → Run H (ℕ × List BthLevel)
  bth_levels zero levels ls = throw unfinished
  bth_levels (suc fuel) levels ls = elim (ltb 1 (length ls)) [
    | true ↦ bth_next (length ls) ls >>= λ next.
        if ltb 8 (levels + 1) then throw bth_too_deep else bth_levels fuel (levels + 1) next
    | false ↦ return (levels, ls)
  ]

  -- `buildBthInto`
  unfoldable pub build_bth_into : List BthRecord → Run H ℕ
  build_bth_into [] = alloc (bth_header cb_key cb_ent 0 0)
  build_bth_into (r ∷ more) =
      let rs = sort_by (λ (r : BthRecord). key_value r.key) (r ∷ more) in
      do
        leaves ← bth_leaves (length rs) rs
        top ← bth_levels 9 0 leaves
        alloc (bth_header cb_key cb_ent top.0 (front_hid top.1))
