-- ===== src/Pst/Ndb/Space/Bitmap.antt =====
-- The bits of one allocation map, and what the loop of `markAllocated` in src/pst/ndb.cpp does to
-- them.
use imap2pst.Base.{
  ℕ, zero, suc, ◌+◌, ◌*◌, ◌/◌, ◌%◌, ◌<◌, ◌≡◌, refl, sym, ap, ap₂, ◌∙◌, Bool, true, false, not, ◌&&◌,
  ◌||◌, List, arith, bit_and, bit_or, ltb, leb, ◌==◌, ◌>>>◌, length, get_or, set, All, All-set,
  All-get_or, length-set, get_or-set_self, get_or-set_ne, Bool-cases, inl, inr, ltb→lt, leb→le,
  leb→gt, ==→eq, and_true,
}
use imap2pst.Base.Bits.{passes, passes-lt}
use imap2pst.Pst.Ndb.Space.{mark_bits}

abbrev pub IsByte : ℕ → Type 0
IsByte b = b < 256

abbrev test_bit : ℕ → ℕ → Bool
test_bit b k = not (bit_and b (0x80 >>> k) == 0)

-- Whether slot `j` is marked. The highest bit of a byte is its first slot.
abbrev pub is_set : List ℕ → ℕ → Bool
is_set bits j = test_bit (get_or bits (j / 8) 0) (j % 8)

abbrev same : Bool → Bool → Bool
same true b = b
same false b = not b

-- Every byte, with every bit of it set.
same→eq : (a b : Bool) → same a b ≡ true → a ≡ b
same→eq a b h = ground arith

abbrev entry_at : ℕ → ℕ → ℕ → Bool
entry_at b i j = same (test_bit (bit_or b (0x80 >>> i)) j) (i == j || test_bit b j)

abbrev entry : ℕ → ℕ → Bool
entry b i = ltb (bit_or b (0x80 >>> i)) 256 && passes (entry_at b i) 8

set_table : passes (λ b. passes (entry b) 8) 256 ≡ true
unfolding passes
set_table = refl

set_bit :
    (b i j : ℕ)
    → b < 256
    → i < 8
    → j < 8
    → (bit_or b (0x80 >>> i) < 256)
      × (test_bit (bit_or b (0x80 >>> i)) j ≡ (i == j || test_bit b j))
set_bit b i j hb hi hj =
    let row : passes (entry b) 8 ≡ true = passes-lt (λ b. passes (entry b) 8) 256 b hb set_table in
    let both = and_true _ _ (passes-lt (entry b) 8 i hi row) in
    (ltb→lt _ _ both.0, same→eq _ _ (passes-lt (entry_at b i) 8 j hj both.1))

-- One round of the loop: slot `bit` is marked, and every other one is as it was.
module _ (bits : List ℕ) (bit : ℕ) (bytes : All IsByte bits) (inside : bit < 8 * length bits) where
  abbrev marked : List ℕ
  marked = set bits (bit / 8) (bit_or (get_or bits (bit / 8) 0) (0x80 >>> (bit % 8)))

  marked-IsByte : All IsByte marked
  marked-IsByte =
      All-set IsByte bits (bit / 8) _ bytes
        (set_bit (get_or bits (bit / 8) 0) (bit % 8) 0
          (All-get_or IsByte bits (bit / 8) 0 bytes (omega arith)) (omega arith) (omega arith)).0

  is_set-marked : (j : ℕ) → is_set marked j ≡ (bit == j || is_set bits j)
  is_set-marked j = elim (Bool-cases (bit / 8 == j / 8)) [
    | inl here ↦
        let e : bit / 8 ≡ j / 8 = ==→eq _ _ here in
        ap (λ t. test_bit t (j % 8))
          (ap (λ t. get_or marked t 0) (sym e) ∙ get_or-set_self bits (bit / 8) _ 0 (omega arith))
        ∙ (set_bit (get_or bits (bit / 8) 0) (bit % 8) j_bit old_byte (omega arith) (omega arith)).1
        ∙ ap₂ ◌||◌ {x = bit % 8 == j_bit} (ground arith) (ap (λ t. is_set_in t) e)
    | inr other ↦
        ap (λ t. test_bit t (j % 8)) (get_or-set_ne bits (bit / 8) (j / 8) _ 0 (ground arith))
        ∙ ground arith
  ]
    where
      j_bit : ℕ
      j_bit = j % 8

      is_set_in : ℕ → Bool
      is_set_in t = test_bit (get_or bits t 0) (j % 8)

      old_byte : IsByte (get_or bits (bit / 8) 0)
      old_byte = All-get_or IsByte bits (bit / 8) 0 bytes (omega arith)

-- The whole loop marks exactly the slots from `bit` on, as far as they lie in the map, and keeps
-- the map's size and bytes.
pub mark_bits_lem :
    (left bit : ℕ) (bits : List ℕ)
    → All IsByte bits
    → (All IsByte (mark_bits left bit bits))
      × (length (mark_bits left bit bits) ≡ length bits)
      × ((j : ℕ)
          → j < 8 * length bits
          → is_set (mark_bits left bit bits) j
            ≡ ((leb bit j && ltb j (bit + left)) || is_set bits j))
unfolding mark_bits
mark_bits_lem zero bit bits bytes = (bytes, refl, λ j h. ground arith)
mark_bits_lem (suc left) bit bits bytes = elim (Bool-cases (leb (length bits) (bit / 8))) [
  | inl spilled ↦ rw spilled (bytes, refl, λ j h. ground (arith, leb→le _ _ spilled))
  | inr inside ↦
      let room : bit < 8 * length bits = omega (arith, leb→gt _ _ inside) in
      let ih =
        mark_bits_lem left (suc bit) (marked bits bit bytes room)
          (marked-IsByte bits bit bytes room) in
      rw inside (
        ih.0,
        ih.1 ∙ length-set bits (bit / 8) _,
        λ j h.
            ih.2 j (rw length-set h)
            ∙ ap (λ t. (leb (suc bit) j && ltb j (suc bit + left)) || t)
                (is_set-marked bits bit bytes room j)
            ∙ join j,
      )
]
  where
    join :
        (j : ℕ)
        → ((leb (suc bit) j && ltb j (suc bit + left)) || (bit == j || is_set bits j))
          ≡ ((leb bit j && ltb j (bit + suc left)) || is_set bits j)
    join j = ground arith
