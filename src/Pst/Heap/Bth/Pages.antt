-- ===== src/Pst/Heap/Bth/Pages.antt =====
-- Pages of the tree of src/pst/heap.h against their reader.
use imap2pst.Base.{
  ℕ, zero, suc, ◌+◌, ◌*◌, ◌^◌, ◌≤◌, ◌<◌, ◌≡◌, refl, sym, ap, ap₂, ◌∙◌, arith, List, [], ◌∷◌, ◌++◌,
  append_assoc, append-nil, All, length, take, drop, slice, map, length-append, take_all,
  take-append, drop-append,
}
use imap2pst.Pst.Format.{put32, le_bytes, peek_loop, peek32}
use imap2pst.Pst.Format.Endian.{peek_loop_four}
use imap2pst.Pst.Heap.Bth.{BthRecord, BthLevel, leaf_page, inter_page}
use imap2pst.Pst.Heap.Bth.Reader.{read_leaf_page, read_inter_page}

-- A record of the sizes that the tree is made for.
pub record IsRecord (cb_key cb_ent : ℕ) (r : BthRecord) : Type 0 where
  pub key : length r.key ≡ cb_key
  pub value : length r.value ≡ cb_ent

-- A page of a level: its key has the size of the keys, and its HID is not 0 and fits into 32 bits.
pub record IsLevel (cb_key : ℕ) (l : BthLevel) : Type 0 where
  pub key : length l.key ≡ cb_key
  pub some_hid : 0 < l.hid
  pub hid : l.hid < 2 ^ 32

length-map : {A B : Type 0} (f : A → B) (xs : List A) → length (map f xs) ≡ length xs
length-map f [] = refl
length-map f (x ∷ xs) = ap suc (length-map f xs)

-- Reading off a prefix of known length.
pub take_prefix : {A : Type 0} (n : ℕ) (xs ys : List A) → length xs ≡ n → take n (xs ++ ys) ≡ xs
take_prefix n xs ys e = ap (λ k. take k (xs ++ ys)) (sym e) ∙ take-append xs ys

pub drop_prefix : {A : Type 0} (n : ℕ) (xs ys : List A) → length xs ≡ n → drop n (xs ++ ys) ≡ ys
drop_prefix n xs ys e = ap (λ k. drop k (xs ++ ys)) (sym e) ∙ drop-append xs ys

pub take_whole : {A : Type 0} (n : ℕ) (xs : List A) → length xs ≡ n → take n xs ≡ xs
take_whole n xs e = take_all n xs (omega (arith, e))

suc_times : (n m : ℕ) → m + n * m ≡ suc n * m
suc_times n m = omega arith

le_times : (n m : ℕ) → 0 < m → n ≤ n * m
le_times zero m h = omega arith
le_times (suc n) m h = omega (arith, suc_times n m, le_times n m h)

module _ (cb_key cb_ent : ℕ) where
  entry : BthRecord → List ℕ
  entry r = r.key ++ r.value

  length-entry : (r : BthRecord) → IsRecord cb_key cb_ent r → length (entry r) ≡ cb_key + cb_ent
  unfolding entry
  length-entry r v = omega (arith, length-append r.key r.value, v.key, v.value)

  leaf_page-append :
      (rs : List BthRecord) (page : List ℕ)
      → leaf_page cb_key cb_ent rs page ≡ page ++ leaf_page cb_key cb_ent rs []
  unfolding leaf_page
  leaf_page-append [] page = sym (append-nil page)
  leaf_page-append (r ∷ rs) page =
      leaf_page-append rs ((page ++ take cb_key r.key) ++ take cb_ent r.value)
      ∙ ap (λ t. t ++ leaf_page cb_key cb_ent rs [])
          (append_assoc page (take cb_key r.key) (take cb_ent r.value))
      ∙ append_assoc page (take cb_key r.key ++ take cb_ent r.value) (leaf_page cb_key cb_ent rs [])
      ∙ ap (λ t. page ++ t) (sym (leaf_page-append rs (take cb_key r.key ++ take cb_ent r.value)))

  leaf_page_cons :
      (r : BthRecord) (rs : List BthRecord)
      → IsRecord cb_key cb_ent r
      → leaf_page cb_key cb_ent (r ∷ rs) [] ≡ entry r ++ leaf_page cb_key cb_ent rs []
  unfolding leaf_page entry
  leaf_page_cons r rs v =
      leaf_page-append rs (take cb_key r.key ++ take cb_ent r.value)
      ∙ ap (λ t. t ++ leaf_page cb_key cb_ent rs [])
          (ap₂ (λ k e. k ++ e) (take_whole cb_key r.key v.key) (take_whole cb_ent r.value v.value))

  read_leaf_unfold :
      (fuel : ℕ) (page : List ℕ)
      → 0 < length page
      → read_leaf_page cb_key cb_ent (suc fuel) page
        ≡ record { key = take cb_key page; value = slice page cb_key cb_ent }
          ∷ read_leaf_page cb_key cb_ent fuel (drop (cb_key + cb_ent) page)
  unfolding read_leaf_page
  read_leaf_unfold fuel [] h = absurd (omega arith)
  read_leaf_unfold fuel (b ∷ bs) h = refl

  read_leaf_step :
      (fuel : ℕ) (r : BthRecord) (rest : List ℕ)
      → IsRecord cb_key cb_ent r
      → 0 < cb_key
      → read_leaf_page cb_key cb_ent (suc fuel) (entry r ++ rest)
        ≡ r ∷ read_leaf_page cb_key cb_ent fuel rest
  unfolding entry
  read_leaf_step fuel r rest v some_key =
      let assoc : entry r ++ rest ≡ r.key ++ (r.value ++ rest) = append_assoc r.key r.value rest in
      let behind : drop (cb_key + cb_ent) (entry r ++ rest) ≡ rest =
        drop_prefix (cb_key + cb_ent) (entry r) rest (length-entry r v) in
      let key : take cb_key (entry r ++ rest) ≡ r.key =
        ap (take cb_key) assoc ∙ take_prefix cb_key r.key (r.value ++ rest) v.key in
      let value : slice (entry r ++ rest) cb_key cb_ent ≡ r.value =
        ap (λ t. slice t cb_key cb_ent) assoc
        ∙ ap (take cb_ent) (drop_prefix cb_key r.key (r.value ++ rest) v.key)
        ∙ take_prefix cb_ent r.value rest v.value in
      read_leaf_unfold fuel (entry r ++ rest)
        (omega (arith, length-append (entry r) rest, length-entry r v))
      ∙ ap₂
          (λ (k e : List ℕ).
            record { key = k; value = e }
            ∷ read_leaf_page cb_key cb_ent fuel (drop (cb_key + cb_ent) (entry r ++ rest)))
          key value
      ∙ ap (λ t. r ∷ read_leaf_page cb_key cb_ent fuel t) behind

  read_leaves :
      (fuel : ℕ) (rs : List BthRecord)
      → All (IsRecord cb_key cb_ent) rs
      → 0 < cb_key
      → length rs ≤ fuel
      → read_leaf_page cb_key cb_ent fuel (leaf_page cb_key cb_ent rs []) ≡ rs
  unfolding leaf_page read_leaf_page
  read_leaves zero [] vs some_key enough = refl
  read_leaves (suc fuel) [] vs some_key enough = refl
  read_leaves zero (r ∷ rs) vs some_key enough = absurd (omega arith)
  read_leaves (suc fuel) (r ∷ rs) vs some_key enough =
      ap (read_leaf_page cb_key cb_ent (suc fuel)) (leaf_page_cons r rs vs.0)
      ∙ read_leaf_step fuel r (leaf_page cb_key cb_ent rs []) vs.0 some_key
      ∙ ap (λ t. r ∷ t) (read_leaves fuel rs vs.1 some_key (omega arith))

  pub length-leaf_page :
      (rs : List BthRecord)
      → All (IsRecord cb_key cb_ent) rs
      → length (leaf_page cb_key cb_ent rs []) ≡ length rs * (cb_key + cb_ent)
  unfolding leaf_page
  length-leaf_page [] vs = omega arith
  length-leaf_page (r ∷ rs) vs =
      ap length (leaf_page_cons r rs vs.0)
      ∙ length-append (entry r) (leaf_page cb_key cb_ent rs [])
      ∙ ap₂ (λ (a b : ℕ). a + b) (length-entry r vs.0) (length-leaf_page rs vs.1)
      ∙ suc_times (length rs) (cb_key + cb_ent)

  -- A leaf page is read back.
  pub read_leaf_page-leaf_page :
      (rs : List BthRecord)
      → All (IsRecord cb_key cb_ent) rs
      → 0 < cb_key
      → (let page = leaf_page cb_key cb_ent rs [] in
          read_leaf_page cb_key cb_ent (length page) page)
        ≡ rs
  read_leaf_page-leaf_page rs vs some_key =
      read_leaves (length (leaf_page cb_key cb_ent rs [])) rs vs some_key (
        omega (arith, length-leaf_page rs vs, le_times (length rs) (cb_key + cb_ent) (omega arith)))

-- An entry of an intermediate page is a record whose value is the HID.
unfoldable pub as_record : BthLevel → BthRecord
as_record l = record { key = l.key; value = le_bytes 4 0 l.hid }

module _ (cb_key : ℕ) where
  pub inter_page-eq-leaf_page :
      (ls : List BthLevel) (page : List ℕ)
      → inter_page cb_key ls page ≡ leaf_page cb_key 4 (map as_record ls) page
  unfolding inter_page leaf_page as_record put32
  inter_page-eq-leaf_page [] page = refl
  inter_page-eq-leaf_page (l ∷ ls) page =
      inter_page-eq-leaf_page ls ((page ++ take cb_key l.key) ++ le_bytes 4 0 l.hid)

  read_inter-eq-read_leaf :
      (fuel : ℕ) (page : List ℕ)
      → read_inter_page cb_key fuel page
        ≡ map (λ (r : BthRecord). peek_loop 32 r.value) (read_leaf_page cb_key 4 fuel page)
  unfolding read_inter_page read_leaf_page peek32
  read_inter-eq-read_leaf zero page = refl
  read_inter-eq-read_leaf (suc fuel) [] = refl
  read_inter-eq-read_leaf (suc fuel) (b ∷ bs) =
      ap (λ t. peek_loop 32 (slice (b ∷ bs) cb_key 4) ∷ t)
        (read_inter-eq-read_leaf fuel (drop (cb_key + 4) (b ∷ bs)))

  pub levels-IsRecord :
      (ls : List BthLevel) → All (IsLevel cb_key) ls → All (IsRecord cb_key 4) (map as_record ls)
  unfolding as_record
  levels-IsRecord [] vs = tt
  levels-IsRecord (l ∷ ls) vs = (record { key = vs.0.key; value = refl }, levels-IsRecord ls vs.1)

  hids_of :
      (ls : List BthLevel)
      → All (IsLevel cb_key) ls
      → map (λ (r : BthRecord). peek_loop 32 r.value) (map as_record ls)
        ≡ map (λ (l : BthLevel). l.hid) ls
  unfolding as_record
  hids_of [] vs = refl
  hids_of (l ∷ ls) vs = ap₂ (λ h t. h ∷ t) (peek_loop_four l.hid vs.0.hid) (hids_of ls vs.1)

  -- The HIDs of an intermediate page are read back.
  pub read_inter_page-inter_page :
      (ls : List BthLevel)
      → All (IsLevel cb_key) ls
      → 0 < cb_key
      → (let page = inter_page cb_key ls [] in read_inter_page cb_key (length page) page)
        ≡ map (λ (l : BthLevel). l.hid) ls
  read_inter_page-inter_page ls vs some_key =
      let page = inter_page cb_key ls [] in
      read_inter-eq-read_leaf (length page) page
      ∙ ap
          (λ p.
            map (λ (r : BthRecord). peek_loop 32 r.value) (read_leaf_page cb_key 4 (length p) p))
          (inter_page-eq-leaf_page ls [])
      ∙ ap (map (λ (r : BthRecord). peek_loop 32 r.value))
          (read_leaf_page-leaf_page cb_key 4 (map as_record ls) (levels-IsRecord ls vs) some_key)
      ∙ hids_of ls vs

  pub length-inter_page :
      (ls : List BthLevel)
      → All (IsLevel cb_key) ls
      → length (inter_page cb_key ls []) ≡ length ls * (cb_key + 4)
  length-inter_page ls vs =
      ap length (inter_page-eq-leaf_page ls [])
      ∙ length-leaf_page cb_key 4 (map as_record ls) (levels-IsRecord ls vs)
      ∙ ap (λ k. k * (cb_key + 4)) (length-map as_record ls)
