-- ===== src/Base/Bits.antt =====
-- Bitwise operations at variables: the recursion on the lowest digit, and from it fields,
-- masks and tables over a byte.
use Prim.Native.Nat.{ℕ, zero, suc, ◌+◌, ◌-◌, ◌*◌, ◌/◌, ◌%◌, ◌^◌, ◌≤◌, ◌<◌, min, max}
use Prim.Native.Nat.{digits, differ, bit_and, bit_or, bit_xor}
use Prim.Native.Nat.{bit_and-bitwise, bit_or-bitwise, bit_xor-bitwise}
use mathlib.Core.Path.{◌≡◌, refl, ap, ◌∙◌}
use mathlib.Core.Bool.{Bool, true, false}
use imap2pst.Base.Tests.{if◌then◌else◌}
use native.Mathlib.Nat.{pow-suc, one-le-pow, div-div-eq-div-mul}
use native.Mathlib.Omega.{arith}

-- An operation on the digits, the lowest one apart.
abbrev SplitsBy : (ℕ → ℕ → ℕ) → (ℕ → ℕ → ℕ) → Type 0
SplitsBy op digit = (x y : ℕ) → op x y ≡ op (x / 2) (y / 2) * 2 + digit (x % 2) (y % 2)

-- The recursion on digits goes the same way on every amount of fuel that covers its first number.
module _ (on_zero : ℕ → ℕ) (digit : ℕ → ℕ → ℕ) where
  same_digits :
      (x y more fuel : ℕ)
      → x ≤ more
      → x ≤ fuel
      → digits on_zero digit fuel x y ≡ digits on_zero digit more x y
  same_digits zero y zero zero h k = refl
  same_digits zero y zero (suc fuel) h k = refl
  same_digits zero y (suc more) zero h k = refl
  same_digits zero y (suc more) (suc fuel) h k = refl
  same_digits (suc x) y zero fuel h k = elim h [ ]
  same_digits (suc x) y (suc more) zero h k = elim k [ ]
  same_digits (suc x) y (suc more) (suc fuel) h k =
      let halved = same_digits (suc x / 2) (y / 2) more fuel (omega arith) (omega arith) in
      ap (λ high. high * 2 + digit (suc x % 2) (y % 2)) halved

  split_first :
      (x y : ℕ)
      → digits on_zero digit (suc x) (suc x) y
        ≡ digits on_zero digit (suc x / 2) (suc x / 2) (y / 2) * 2 + digit (suc x % 2) (y % 2)
  split_first x y =
      let halved = same_digits (suc x / 2) (y / 2) (suc x / 2) x (omega arith) (omega arith) in
      ap (λ high. high * 2 + digit (suc x % 2) (y % 2)) halved

bit_or_step : SplitsBy bit_or max
bit_or_step zero y = simp bit_or-bitwise (omega arith)
bit_or_step (suc x) y = simp bit_or-bitwise (split_first (λ t. t) max x y)

bit_and_step : SplitsBy bit_and min
bit_and_step zero y = simp bit_and-bitwise (omega arith)
bit_and_step (suc x) y = simp bit_and-bitwise (split_first (λ t. 0) min x y)

-- A statement about a number and its half, down to zero.
halving {ℓ} :
    (P : ℕ → ℕ → Type ℓ)
    → ((b : ℕ) → P 0 b)
    → ((a b : ℕ) → P (suc a / 2) (b / 2) → P (suc a) b)
    → (n a b : ℕ) → a ≤ n
    → P a b
halving P base step zero zero b h = base b
halving P base step zero (suc a) b h = elim h [ ]
halving P base step (suc n) zero b h = base b
halving P base step (suc n) (suc a) b h =
    step a b (halving P base step n (suc a / 2) (b / 2) (omega arith))

bit_xor_step : SplitsBy bit_xor differ
bit_xor_step zero zero = simp bit_xor-bitwise (omega arith)
bit_xor_step zero (suc b) = simp bit_xor-bitwise (omega arith)
bit_xor_step (suc a) b = simp bit_xor-bitwise (split_first (λ t. t) differ a b)

pub zero-bit_or : (b : ℕ) → bit_or 0 b ≡ b
zero-bit_or b = bit_or-bitwise 0 b

pub zero-bit_and : (b : ℕ) → bit_and 0 b ≡ 0
zero-bit_and b = bit_and-bitwise 0 b

pub zero-bit_xor : (b : ℕ) → bit_xor 0 b ≡ b
zero-bit_xor b = bit_xor-bitwise 0 b

pub bit_or-zero : (a : ℕ) → bit_or a 0 ≡ a
bit_or-zero a =
    halving (λ a b. bit_or a 0 ≡ a) (λ _. refl) (λ a b ih. omega (arith, bit_or_step (suc a) 0)) a a
      0 (omega arith)

pub bit_and-zero : (a : ℕ) → bit_and a 0 ≡ 0
bit_and-zero a =
    halving (λ a b. bit_and a 0 ≡ 0) (λ _. refl) (λ a b ih. omega (arith, bit_and_step (suc a) 0)) a
      a 0 (omega arith)

double_field : (hi w : ℕ) → hi * 2 ^ w * 2 ≡ hi * 2 ^ suc w
double_field hi w = omega (arith, ap (λ (t : ℕ). hi * t) (pow-suc 2 w))

-- `(hi << w) | lo` is a sum where `lo` fits into `w` bits.
pub bit_or_fields : (w hi lo : ℕ) → lo < 2 ^ w → bit_or (hi * 2 ^ w) lo ≡ hi * 2 ^ w + lo
bit_or_fields zero hi lo fits = ground (arith, bit_or-zero hi)
bit_or_fields (suc w) hi lo fits =
    let below = bit_or_fields w hi (lo / 2) (omega (arith, pow-suc 2 w)) in
    ground (arith, double_field hi w, bit_or_step (hi * 2 ^ suc w) lo, below)

mask_fields : (w hi lo : ℕ) → lo < 2 ^ w → bit_and (hi * 2 ^ w + lo) (2 ^ w - 1) ≡ lo
mask_fields zero hi lo fits = ground (arith, bit_and-zero (hi * 1 + lo))
mask_fields (suc w) hi lo fits = ground (
  arith,
  mask_fields w hi (lo / 2),
  one-le-pow w 2,
  pow-suc 2 w,
  double_field hi w,
  bit_and_step (hi * 2 ^ suc w + lo) (2 ^ suc w - 1),
)

-- `a & (2 ^ k - 1)` is the remainder.
pub bit_and_mask : (k a : ℕ) → bit_and a (2 ^ k - 1) ≡ a % 2 ^ k
bit_and_mask k a = ground (arith, one-le-pow k 2, mask_fields k (a / 2 ^ k) (a % 2 ^ k))

-- A mask with a zero below passes on to the half.
pub bit_and_even : (a m : ℕ) → bit_and a (m * 2) ≡ bit_and (a / 2) m * 2
bit_and_even a m =
    let half : m * 2 / 2 ≡ m = omega arith in
    omega (arith, bit_and_step a (m * 2), ap (λ (t : ℕ). bit_and (a / 2) t) half)

differ_digit : (a b : ℕ) → differ (a % 2) (b % 2) ≡ (a + b) % 2
differ_digit a b = omega (arith, table (a % 2) (b % 2) (omega arith) (omega arith))
  where
    table : (x y : ℕ) → x < 2 → y < 2 → differ x y ≡ (x + y) % 2
    table zero zero h k = refl
    table zero (suc zero) h k = refl
    table (suc zero) zero h k = refl
    table (suc zero) (suc zero) h k = refl
    table zero (suc (suc y)) h k = absurd (omega arith)
    table (suc zero) (suc (suc y)) h k = absurd (omega arith)
    table (suc (suc x)) y h k = absurd (omega arith)

-- The lowest digit of an exclusive or, and the rest of it.
pub bit_xor_digit : (a b : ℕ) → bit_xor a b ≡ bit_xor (a / 2) (b / 2) * 2 + (a + b) % 2
bit_xor_digit a b =
    bit_xor_step a b ∙ ap (λ (t : ℕ). bit_xor (a / 2) (b / 2) * 2 + t) (differ_digit a b)

bit_xor_half : (a b : ℕ) → bit_xor a b / 2 ≡ bit_xor (a / 2) (b / 2)
bit_xor_half a b = omega (arith, bit_xor_digit a b)

xor_assoc_below :
    (n a b c : ℕ) → a ≤ n → b ≤ n → c ≤ n → bit_xor (bit_xor a b) c ≡ bit_xor a (bit_xor b c)
xor_assoc_below zero zero zero zero p q r = refl
xor_assoc_below zero zero zero (suc c) p q r = elim r [ ]
xor_assoc_below zero zero (suc b) c p q r = elim q [ ]
xor_assoc_below zero (suc a) b c p q r = elim p [ ]
xor_assoc_below (suc n) a b c p q r = ground (
  arith,
  bit_xor_digit (bit_xor a b) c,
  bit_xor_digit a (bit_xor b c),
  bit_xor_digit a b,
  bit_xor_digit b c,
  bit_xor_half a b,
  bit_xor_half b c,
  xor_assoc_below n (a / 2) (b / 2) (c / 2),
)

pub bit_xor_assoc : (a b c : ℕ) → bit_xor (bit_xor a b) c ≡ bit_xor a (bit_xor b c)
bit_xor_assoc a b c = xor_assoc_below (a + b + c) a b c (omega arith) (omega arith) (omega arith)

-- `x ^ (y << 1)` changes the digits above the lowest alone.
pub bit_xor_even : (a y : ℕ) → bit_xor a (y * 2) ≡ bit_xor (a / 2) y * 2 + a % 2
bit_xor_even a y =
    let half : y * 2 / 2 ≡ y = omega arith in
    omega (arith, bit_xor_digit a (y * 2), ap (λ (t : ℕ). bit_xor (a / 2) t) half)

pub bit_xor-zero : (a : ℕ) → bit_xor a 0 ≡ a
bit_xor-zero a =
    halving (λ a b. bit_xor a 0 ≡ a) (λ _. refl) (λ a b ih. omega (arith, bit_xor_even (suc a) 0)) a
      a 0 (omega arith)

-- An exclusive or of disjoint fields is a sum.
pub bit_xor_fields : (k q r : ℕ) → r < 2 ^ k → bit_xor r (q * 2 ^ k) ≡ q * 2 ^ k + r
bit_xor_fields zero q zero h = zero-bit_xor (q * 1) ∙ omega arith
bit_xor_fields zero q (suc r) h = absurd (omega arith)
bit_xor_fields (suc k) q r h =
    let even : q * 2 ^ suc k ≡ q * 2 ^ k * 2 = omega (arith, double_field q k) in
    ap (bit_xor r) even
    ∙ bit_xor_even r (q * 2 ^ k)
    ∙ omega (arith, bit_xor_fields k q (r / 2) (omega (arith, pow-suc 2 k)), double_field q k)

-- A shift to the right goes into both sides.
pub bit_xor_shift : (k a b : ℕ) → bit_xor a b / 2 ^ k ≡ bit_xor (a / 2 ^ k) (b / 2 ^ k)
bit_xor_shift zero a b = ground (arith, at_one (bit_xor a b), at_one a, at_one b)
  where
    at_one : (n : ℕ) → n / 1 ≡ n
    at_one n = omega arith
bit_xor_shift (suc k) a b =
    rw (← halve (bit_xor a b), ← halve a, ← halve b, bit_xor_half) (bit_xor_shift k (a / 2) (b / 2))
  where
    halve : (n : ℕ) → n / 2 / 2 ^ k ≡ n / 2 ^ suc k
    halve n = div-div-eq-div-mul n 2 (2 ^ k) ∙ ap (λ (t : ℕ). n / t) (omega (arith, pow-suc 2 k))

pub bit_xor-lt : (k a b : ℕ) → a < 2 ^ k → b < 2 ^ k → bit_xor a b < 2 ^ k
bit_xor-lt zero zero zero h i = omega arith
bit_xor-lt zero zero (suc b) h i = absurd (omega arith)
bit_xor-lt zero (suc a) b h i = absurd (omega arith)
bit_xor-lt (suc k) a b h i = omega (
  arith,
  bit_xor_digit a b,
  pow-suc 2 k,
  bit_xor-lt k (a / 2) (b / 2) (omega (arith, pow-suc 2 k)) (omega (arith, pow-suc 2 k)),
)

pub bit_or-lt : (k a b : ℕ) → a < 2 ^ k → b < 2 ^ k → bit_or a b < 2 ^ k
bit_or-lt zero zero zero h i = omega arith
bit_or-lt zero zero (suc b) h i = absurd (omega arith)
bit_or-lt zero (suc a) b h i = absurd (omega arith)
bit_or-lt (suc k) a b h i = omega (
  arith,
  bit_or_step a b,
  pow-suc 2 k,
  bit_or-lt k (a / 2) (b / 2) (omega (arith, pow-suc 2 k)) (omega (arith, pow-suc 2 k)),
)

-- A test of all values of a byte, or of a bit position, by evaluation.
unfoldable pub passes : (ℕ → Bool) → ℕ → Bool
passes test zero = true
passes test (suc k) = if test k then passes test k else false

pub passes-lt : (test : ℕ → Bool) (k x : ℕ) → x < k → passes test k ≡ true → test x ≡ true
unfolding passes
passes-lt test zero x below h = absurd (omega arith)
passes-lt test (suc k) x below h = ground (arith, passes-lt test k x)
