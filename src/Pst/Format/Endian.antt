-- ===== src/Pst/Format/Endian.antt =====
-- The byte-order helpers of pst_format.h: what is poked or appended is peeked again.
use imap2pst.Base.{
  ℕ, zero, suc, ◌+◌, ◌*◌, ◌^◌, ◌≤◌, ◌<◌, ◌≡◌, refl, ap, ◌∙◌, ◌⊎◌, arith, List, [], ◌∷◌, u8, ◌>>>◌,
  length, slice, slice-copy_at, slice-copy_at_out, All, length-copy_at, take, drop-append,
}
use native.Mathlib.Nat.{mod-eq_of_lt}
use imap2pst.Base.Bits.{bit_or_fields}
use imap2pst.Pst.Format.{le_bytes, peek_loop, put32, poke16, poke32, poke64, peek16, peek32, peek64}

-- What a little-endian list of bytes stands for.
abbrev pub le_value : List ℕ → ℕ
le_value [] = 0
le_value (b ∷ bs) = le_value bs * 256 + b

abbrev pub IsByte : ℕ → Type 0
IsByte b = b < 256

-- The loop computes that value, where it fits.
peek_loop-eq-le_value :
    (w : ℕ) (bs : List ℕ) → All IsByte bs → le_value bs < 2 ^ w → peek_loop w bs ≡ le_value bs
peek_loop-eq-le_value w [] h f = refl
peek_loop-eq-le_value w (b ∷ bs) h f = ground (
  arith,
  peek_loop-eq-le_value w bs h.1,
  bit_or_fields 8 (le_value bs) b,
  mod-eq_of_lt {n = le_value bs * 256} {m = 2 ^ w},
)

pub le_bytes-IsByte : (n i v : ℕ) → All IsByte (le_bytes n i v)
le_bytes-IsByte zero i v = tt
le_bytes-IsByte (suc n) i v = (omega arith, le_bytes-IsByte n (i + 1) v)

length-le_bytes : (n i v : ℕ) → length (le_bytes n i v) ≡ n
length-le_bytes zero i v = refl
length-le_bytes (suc n) i v = ap suc (length-le_bytes n (i + 1) v)

le_bytes_four : (v : ℕ) → v < 2 ^ 32 → le_value (le_bytes 4 0 v) ≡ v
le_bytes_four v h = omega arith

le_bytes_eight : (v : ℕ) → v < 2 ^ 64 → le_value (le_bytes 8 0 v) ≡ v
le_bytes_eight v h = omega arith

pub peek_loop_two : (v : ℕ) → v < 2 ^ 16 → peek_loop 16 (u8 v ∷ u8 (v >>> 8) ∷ []) ≡ v
peek_loop_two v h =
    peek_loop-eq-le_value 16 (u8 v ∷ u8 (v >>> 8) ∷ []) (omega arith) (omega arith) ∙ omega arith

pub peek_loop_four : (v : ℕ) → v < 2 ^ 32 → peek_loop 32 (le_bytes 4 0 v) ≡ v
peek_loop_four v h =
    peek_loop-eq-le_value 32 (le_bytes 4 0 v) (le_bytes-IsByte 4 0 v) (omega arith)
    ∙ le_bytes_four v h

pub peek_loop_eight : (v : ℕ) → v < 2 ^ 64 → peek_loop 64 (le_bytes 8 0 v) ≡ v
peek_loop_eight v h =
    peek_loop-eq-le_value 64 (le_bytes 8 0 v) (le_bytes-IsByte 8 0 v) (omega arith)
    ∙ le_bytes_eight v h

module _ (p : List ℕ) (o v : ℕ) where
  pub peek16-poke16 : o + 2 ≤ length p → v < 2 ^ 16 → peek16 (poke16 p o v) o ≡ v
  unfolding peek16 poke16
  peek16-poke16 fits small =
      ap (peek_loop 16) (slice-copy_at (u8 v ∷ u8 (v >>> 8) ∷ []) p o fits)
      ∙ peek_loop-eq-le_value 16 (u8 v ∷ u8 (v >>> 8) ∷ []) (omega arith) (omega arith)
      ∙ omega arith

  pub peek32-poke32 : o + 4 ≤ length p → v < 2 ^ 32 → peek32 (poke32 p o v) o ≡ v
  unfolding peek32 poke32
  peek32-poke32 fits small =
      ap (peek_loop 32) (slice-copy_at (le_bytes 4 0 v) p o fits)
      ∙ peek_loop-eq-le_value 32 (le_bytes 4 0 v) (le_bytes-IsByte 4 0 v) (omega arith)
      ∙ le_bytes_four v small

  pub peek64-poke64 : o + 8 ≤ length p → v < 2 ^ 64 → peek64 (poke64 p o v) o ≡ v
  unfolding peek64 poke64
  peek64-poke64 fits small =
      ap (peek_loop 64) (slice-copy_at (le_bytes 8 0 v) p o fits)
      ∙ peek_loop-eq-le_value 64 (le_bytes 8 0 v) (le_bytes-IsByte 8 0 v) (omega arith)
      ∙ le_bytes_eight v small

-- A poke of 16, 32 or 64 bits whose 2, 4 or 8 bytes lie inside the buffer is read back by the peek of the same width.
pub peek-poke :
    (p : List ℕ) (i j k a b c : ℕ)
    → i + 2 ≤ length p
    → j + 4 ≤ length p
    → k + 8 ≤ length p
    → a < 2 ^ 16
    → b < 2 ^ 32
    → c < 2 ^ 64
    → (peek16 (poke16 p i a) i ≡ a) × (peek32 (poke32 p j b) j ≡ b) × (peek64 (poke64 p k c) k ≡ c)
peek-poke p i j k a b c fits_i fits_j fits_k small_a small_b small_c = (
  peek16-poke16 p i a fits_i small_a,
  peek32-poke32 p j b fits_j small_b,
  peek64-poke64 p k c fits_k small_c,
)

-- `put32` and its kin append the bytes that `poke32` would write.
pub peek32-put32 : (b : List ℕ) (v : ℕ) → v < 2 ^ 32 → peek32 (put32 b v) (length b) ≡ v
unfolding peek32 put32
peek32-put32 b v small =
    ap (λ t. peek_loop 32 (take 4 t)) (drop-append b (le_bytes 4 0 v))
    ∙ peek_loop-eq-le_value 32 (le_bytes 4 0 v) (le_bytes-IsByte 4 0 v) (omega arith)
    ∙ le_bytes_four v small

-- A poke keeps the size of the buffer, and every range that it does not touch.
module _ (p : List ℕ) (o v : ℕ) where
  pub length-poke16 : length (poke16 p o v) ≡ length p
  unfolding poke16
  length-poke16 = length-copy_at p o (u8 v ∷ u8 (v >>> 8) ∷ [])

  pub length-poke32 : length (poke32 p o v) ≡ length p
  unfolding poke32
  length-poke32 = length-copy_at p o (le_bytes 4 0 v)

  pub length-poke64 : length (poke64 p o v) ≡ length p
  unfolding poke64
  length-poke64 = length-copy_at p o (le_bytes 8 0 v)

  pub slice-poke16 : (m n : ℕ) → (m + n ≤ o) ⊎ (o + 2 ≤ m) → slice (poke16 p o v) m n ≡ slice p m n
  unfolding poke16
  slice-poke16 m n h = slice-copy_at_out (u8 v ∷ u8 (v >>> 8) ∷ []) p o m n h

  pub slice-poke32 : (m n : ℕ) → (m + n ≤ o) ⊎ (o + 4 ≤ m) → slice (poke32 p o v) m n ≡ slice p m n
  unfolding poke32
  slice-poke32 m n h = slice-copy_at_out (le_bytes 4 0 v) p o m n h

  pub slice-poke64 : (m n : ℕ) → (m + n ≤ o) ⊎ (o + 8 ≤ m) → slice (poke64 p o v) m n ≡ slice p m n
  unfolding poke64
  slice-poke64 m n h = slice-copy_at_out (le_bytes 8 0 v) p o m n h
