-- ===== src/Pst/Heap/Bth/Header.antt =====
-- The sorting and the header of `buildBthInto` in src/pst/heap.h.
use imap2pst.Base.{
  ℕ, suc, ◌^◌, ◌<◌, ◌≡◌, refl, ap, ap₂, ◌∙◌, arith, List, [], ◌∷◌, All, Option, some, true,
  Bool-cases, inl, inr, leb, ◌==◌, if◌then◌else◌, length, u8,
}
use imap2pst.Base.Sort.{insert_by, sort_by}
use imap2pst.Pst.Format.{put32}
use imap2pst.Pst.Format.Endian.{peek32-put32}
use imap2pst.Pst.Heap.Bth.{bth_header}
use imap2pst.Pst.Heap.Bth.Reader.{read_level, read_header}

All-insert_by :
    {A : Type 0} (P : A → Type 0) (key : A → ℕ) (a : A) (xs : List A)
    → P a
    → All P xs
    → All P (insert_by key a xs)
unfolding insert_by
All-insert_by P key a [] h hs = (h, tt)
All-insert_by P key a (x ∷ xs) h hs = elim (Bool-cases (leb (key a) (key x))) [
  | inl first ↦ rw first (h, hs)
  | inr later ↦ rw later (hs.0, All-insert_by P key a xs h hs.1)
]

pub All-sort_by :
    {A : Type 0} (P : A → Type 0) (key : A → ℕ) (xs : List A) → All P xs → All P (sort_by key xs)
unfolding sort_by
All-sort_by P key [] hs = tt
All-sort_by P key (x ∷ xs) hs =
    All-insert_by P key x (sort_by key xs) hs.0 (All-sort_by P key xs hs.1)

length-insert_by :
    {A : Type 0} (key : A → ℕ) (a : A) (xs : List A) → length (insert_by key a xs) ≡ suc (length xs)
unfolding insert_by
length-insert_by key a [] = refl
length-insert_by key a (x ∷ xs) = elim (Bool-cases (leb (key a) (key x))) [
  | inl first ↦ rw first refl
  | inr later ↦ rw later (ap suc (length-insert_by key a xs))
]

pub length-sort_by : {A : Type 0} (key : A → ℕ) (xs : List A) → length (sort_by key xs) ≡ length xs
unfolding sort_by
length-sort_by key [] = refl
length-sort_by key (x ∷ xs) =
    length-insert_by key x (sort_by key xs) ∙ ap suc (length-sort_by key xs)

byte : (n : ℕ) → n < 256 → u8 n ≡ n
byte n small = omega arith

same : (n : ℕ) → (n == n) ≡ true
same n = ground arith

-- The header is read back.
pub read_header-bth_header :
    (cb_key cb_ent : ℕ) (lookup : ℕ → Option (List ℕ)) (levels root : ℕ)
    → cb_key < 256
    → cb_ent < 256
    → levels < 256
    → root < 2 ^ 32
    → read_header cb_key cb_ent lookup (bth_header cb_key cb_ent levels root)
      ≡ (if root == 0 then some [] else read_level cb_key cb_ent lookup levels root)
unfolding read_header bth_header put32
read_header-bth_header cb_key cb_ent lookup levels root small_key small_ent small_levels
      small_root =
    let header : List ℕ = 0xB5 ∷ cb_key ∷ cb_ent ∷ levels ∷ [] in
    let bytes : bth_header cb_key cb_ent levels root ≡ put32 header root =
      ap₂ (λ k e. put32 (0xB5 ∷ k ∷ e ∷ u8 levels ∷ []) root) (byte cb_key small_key)
        (byte cb_ent small_ent)
      ∙ ap (λ l. put32 (0xB5 ∷ cb_key ∷ cb_ent ∷ l ∷ []) root) (byte levels small_levels) in
    ap (read_header cb_key cb_ent lookup) bytes
    ∙ rw (peek32-put32 header root small_root, same cb_key, same cb_ent) refl
