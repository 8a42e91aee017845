-- ===== src/Base/Bytes.antt =====
-- Byte buffers: `memcpy` into a buffer, reads of a range, and both ends of a buffer.
use Prim.Native.Nat.{ℕ, zero, suc, ◌+◌, ◌≤◌, ◌<◌}
use mathlib.Core.Path.{◌≡◌, refl, ap, ◌∙◌, ap₂}
use mathlib.Core.Logic.{◌⊎◌, inr}
use mathlib.Core.List.{List, [], ◌∷◌, ◌++◌}
use native.Mathlib.Omega.{arith}
use imap2pst.Base.Lists.{length, set, take, drop, length-set}

module _ {ℓ} {A : Type ℓ} where
  -- `n` elements from position `o` on
  abbrev pub slice : List A → ℕ → ℕ → List A
  slice p o n = take n (drop o p)

  -- `memcpy(p + o, src, n)`
  abbrev pub copy_at : List A → ℕ → List A → List A
  copy_at p o [] = p
  copy_at p o (x ∷ xs) = copy_at (set p o x) (suc o) xs

module _ {ℓ} {A : Type ℓ} where
  pub length-copy_at : (p : List A) (o : ℕ) (src : List A) → length (copy_at p o src) ≡ length p
  length-copy_at p o [] = refl
  length-copy_at p o (x ∷ xs) = length-copy_at (set p o x) (suc o) xs ∙ length-set p o x

  slice-set_out :
      (p : List A) (o n i : ℕ) (x : A) → (i < o) ⊎ (o + n ≤ i) → slice (set p i x) o n ≡ slice p o n
  slice-set_out [] o n i x h = refl
  slice-set_out (y ∷ ys) zero zero i x h = refl
  slice-set_out (y ∷ ys) zero (suc n) zero x h = absurd (omega arith)
  slice-set_out (y ∷ ys) zero (suc n) (suc i) x h =
      ap (λ t. y ∷ t) (slice-set_out ys zero n i x (inr (omega arith)))
  slice-set_out (y ∷ ys) (suc o) n zero x h = refl
  slice-set_out (y ∷ ys) (suc o) n (suc i) x h = slice-set_out ys o n i x (omega arith)

  -- A copy leaves every range that it does not touch.
  pub slice-copy_at_out :
      (src p : List A) (o m n : ℕ)
      → (m + n ≤ o) ⊎ (o + length src ≤ m)
      → slice (copy_at p o src) m n ≡ slice p m n
  slice-copy_at_out [] p o m n h = refl
  slice-copy_at_out (x ∷ xs) p o m zero h = refl
  slice-copy_at_out (x ∷ xs) p o m (suc n) h =
      slice-copy_at_out xs (set p o x) (suc o) m (suc n) (omega arith)
      ∙ slice-set_out p m (suc n) o x (omega arith)

  slice-suc : (p : List A) (o n : ℕ) → slice p o (suc n) ≡ slice p o 1 ++ slice p (suc o) n
  slice-suc [] zero zero = refl
  slice-suc [] zero (suc n) = refl
  slice-suc [] (suc o) zero = refl
  slice-suc [] (suc o) (suc n) = refl
  slice-suc (x ∷ xs) zero n = refl
  slice-suc (x ∷ xs) (suc o) n = slice-suc xs o n

  slice-set_self : (p : List A) (o : ℕ) (x : A) → o < length p → slice (set p o x) o 1 ≡ x ∷ []
  slice-set_self [] o x h = absurd (omega arith)
  slice-set_self (y ∷ ys) zero x h = refl
  slice-set_self (y ∷ ys) (suc o) x h = slice-set_self ys o x (omega arith)

  -- A copy that fits is read back whole.
  pub slice-copy_at :
      (src p : List A) (o : ℕ)
      → o + length src ≤ length p
      → slice (copy_at p o src) o (length src) ≡ src
  slice-copy_at [] p o h = refl
  slice-copy_at (x ∷ xs) p o h =
      slice-suc (copy_at (set p o x) (suc o) xs) o (length xs)
      ∙ ap₂ ◌++◌
          (slice-copy_at_out xs (set p o x) (suc o) o 1 (omega arith)
            ∙ slice-set_self p o x (omega arith))
          (slice-copy_at xs (set p o x) (suc o) (omega (arith, length-set p o x)))
