-- ===== src/Pst/Format/Align.antt =====
-- `alignUp` of pst_format.h: the least multiple at or above, as long as nothing wraps.
use imap2pst.Base.{ℕ, ◌+◌, ◌*◌, ◌/◌, ◌%◌, ◌^◌, ◌-◌, ◌≤◌, ◌<◌, ◌≡◌, arith, u64, ap, ◌∙◌}
use native.Mathlib.Nat.{div-mul-le_self, lt-div-mul-add, mul-mod_left}
use imap2pst.Pst.Format.{align_up}

-- `alignUp v a` is the only multiple of `a` in `v ≤ m < v + a`, provided that `v + a` does not
-- exceed the range of 64 bits.
pub align_up_bounds :
    (v a : ℕ)
    → 0 < a
    → v + a ≤ 2 ^ 64
    → (v ≤ align_up v a) × (align_up v a < v + a) × (align_up v a % a ≡ 0)
unfolding align_up
align_up_bounds v a pos small = rw whole bounds
  where
    bumped : u64 (v + a + (2 ^ 64 - 1)) ≡ v + a - 1
    bumped = omega arith

    q : ℕ
    q = (v + a - 1) / a * a

    whole : u64 (u64 (v + a + (2 ^ 64 - 1)) / a * a) ≡ q
    whole = ap (λ (t : ℕ). u64 (t / a * a)) bumped ∙ omega (arith, div-mul-le_self (v + a - 1) a)

    bounds : (v ≤ q) × (q < v + a) × (q % a ≡ 0)
    bounds = (
      omega (arith, lt-div-mul-add {a = v + a - 1} {b = a} pos),
      omega (arith, div-mul-le_self (v + a - 1) a),
      mul-mod_left ((v + a - 1) / a) a,
    )

pub align_up_64 : (v : ℕ) → v + 64 ≤ 2 ^ 64 → align_up v 64 ≡ (v + 63) / 64 * 64
unfolding align_up
align_up_64 v h = omega arith

pub align_up_512 : (v : ℕ) → v + 512 ≤ 2 ^ 64 → align_up v 512 ≡ (v + 511) / 512 * 512
unfolding align_up
align_up_512 v h = omega arith

pub align_up_two : (v : ℕ) → v + 2 ≤ 2 ^ 64 → align_up v 2 ≡ (v + 1) / 2 * 2
unfolding align_up
align_up_two v h = omega arith
