-- ===== src/Pst/Heap/Bth/Reader.antt =====
-- An independent reader of the trees that `buildBthInto` of src/pst/heap.h writes, through a look-up of HIDs.
use imap2pst.Base.{
  ℕ, zero, suc, ◌+◌, List, [], ◌∷◌, ◌++◌, Option, none, some, ◌==◌, ◌&&◌, if◌then◌else◌, length,
  get_or, take, drop, slice,
}
use imap2pst.Pst.Format.{peek32}
use imap2pst.Pst.Heap.Bth.{BthRecord}

abbrev pub and_then {ℓ κ} : {A : Type ℓ} {B : Type κ} → Option A → (A → Option B) → Option B
and_then none f = none
and_then (some a) f = f a

-- The records of a leaf page. The fuel is the page's length.
unfoldable pub read_leaf_page : ℕ → ℕ → ℕ → List ℕ → List BthRecord
read_leaf_page cb_key cb_ent zero page = []
read_leaf_page cb_key cb_ent (suc fuel) [] = []
read_leaf_page cb_key cb_ent (suc fuel) (b ∷ bs) =
    let page = b ∷ bs in
    record { key = take cb_key page; value = slice page cb_key cb_ent }
    ∷ read_leaf_page cb_key cb_ent fuel (drop (cb_key + cb_ent) page)

-- The HIDs of an intermediate page.
unfoldable pub read_inter_page : ℕ → ℕ → List ℕ → List ℕ
read_inter_page cb_key zero page = []
read_inter_page cb_key (suc fuel) [] = []
read_inter_page cb_key (suc fuel) (b ∷ bs) =
    let page = b ∷ bs in peek32 page cb_key ∷ read_inter_page cb_key fuel (drop (cb_key + 4) page)

unfoldable pub read_all : (ℕ → Option (List BthRecord)) → List ℕ → Option (List BthRecord)
read_all f [] = some []
read_all f (h ∷ hs) = and_then (f h) λ first. and_then (read_all f hs) λ rest. some (first ++ rest)

module _ (cb_key cb_ent : ℕ) (lookup : ℕ → Option (List ℕ)) where
  -- The records below a page, `levels` of intermediate pages above the leaves.
  unfoldable pub read_level : ℕ → ℕ → Option (List BthRecord)
  read_level zero hid =
      and_then (lookup hid) λ page. some (read_leaf_page cb_key cb_ent (length page) page)
  read_level (suc levels) hid =
      and_then (lookup hid)
        λ page. read_all (read_level levels) (read_inter_page cb_key (length page) page)

  -- The tree with the header `h`.
  unfoldable pub read_header : List ℕ → Option (List BthRecord)
  read_header h =
      if get_or h 0 0 == 0xB5 && (get_or h 1 0 == cb_key && get_or h 2 0 == cb_ent)
      then (if peek32 h 4 == 0 then some [] else read_level (get_or h 3 0) (peek32 h 4))
      else none

  -- The whole tree.
  unfoldable pub read_bth : ℕ → Option (List BthRecord)
  read_bth hid = and_then (lookup hid) read_header
