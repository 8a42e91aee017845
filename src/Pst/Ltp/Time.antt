-- ===== src/Pst/Ltp/Time.antt =====
-- `unixToFiletime` of src/pst/ltp.cpp.
use imap2pst.Base.{
  ℕ, zero, suc, ◌+◌, ◌-◌, ◌*◌, ◌%◌, ◌^◌, ◌<◌, ◌≤◌, ◌≡◌, refl, ap, ◌∙◌, not, ◌&&◌, ◌||◌, ◌==◌, arith,
  leb, leb→le, leb→gt, if◌then◌else◌, u64, Bool-cases, inl, inr,
}
use imap2pst.Base.Int.{ℤ, pos, negsuc}

abbrev pub epoch_seconds : ℕ
epoch_seconds = 11644473600

-- The sum does not overflow for seconds in the range of 64 bits up to 2^63 - 1 - 11644473600, behind which
-- the source's behaviour is undefined. The cast of a sum to `std::uint64_t` wraps.
unfoldable pub unix_to_filetime : ℤ → ℕ
unix_to_filetime (pos n) = u64 (u64 (n + epoch_seconds) * 10000000)
unix_to_filetime (negsuc n) =
    if leb epoch_seconds (suc n) then 0 else u64 (u64 (2 ^ 64 + epoch_seconds - suc n) * 10000000)

-- The days of `n` years from the year `y` on, in the Gregorian calendar.
pub days_of_years : ℕ → ℕ → ℕ
days_of_years zero y = 0
days_of_years (suc n) y =
    (if y % 4 == 0 && (not (y % 100 == 0) || y % 400 == 0) then 366 else 365)
    + days_of_years n (suc y)

-- The seconds from the start of 1601 to that of 1970.
unfoldable pub seconds_to_1970 : ℕ
seconds_to_1970 = 86400 * days_of_years 369 1601

seconds_to_1970-eq : seconds_to_1970 ≡ epoch_seconds
unfolding seconds_to_1970 days_of_years
seconds_to_1970-eq = refl

-- The moment `n` seconds after the start of 1601, in seconds from 1970 on.
unfoldable pub unix_seconds : ℕ → ℤ
unix_seconds n =
    if leb seconds_to_1970 n then pos (n - seconds_to_1970) else negsuc (seconds_to_1970 - n - 1)

from_1970 :
    (n : ℕ)
    → n * 10000000 < 2 ^ 64
    → epoch_seconds ≤ n
    → unix_to_filetime (pos (n - epoch_seconds)) ≡ n * 10000000
unfolding unix_to_filetime
from_1970 n small le = omega arith

before_1970 :
    (n : ℕ) → n < epoch_seconds → unix_to_filetime (negsuc (epoch_seconds - n - 1)) ≡ n * 10000000
unfolding unix_to_filetime
before_1970 n lt = ground arith

before_1601 : (k : ℕ) → unix_to_filetime (negsuc (epoch_seconds + k)) ≡ 0
unfolding unix_to_filetime
before_1601 k = ground arith

moment : (n : ℕ) → n * 10000000 < 2 ^ 64 → unix_to_filetime (unix_seconds n) ≡ n * 10000000
unfolding unix_seconds
moment n small = elim (Bool-cases (leb epoch_seconds n)) [
  | inl e ↦ rw (unix_seconds, seconds_to_1970-eq, e) (from_1970 n small (leb→le epoch_seconds n e))
  | inr e ↦ rw (unix_seconds, seconds_to_1970-eq, e) (before_1970 n (leb→gt epoch_seconds n e))
]

-- The FILETIME of the moment `n` seconds after the start of 1601, counted by the Gregorian calendar, is `n` times ten
-- million, if that is below 2 ^ 64; and the FILETIME of every moment before 1601 is 0.
pub unix_to_filetime-unix_seconds :
    (n k : ℕ)
    → n * 10000000 < 2 ^ 64
    → (unix_to_filetime (unix_seconds n) ≡ n * 10000000)
      × (unix_to_filetime (negsuc (seconds_to_1970 + k)) ≡ 0)
unix_to_filetime-unix_seconds n k small =
    (moment n small, ap (λ s. unix_to_filetime (negsuc (s + k))) seconds_to_1970-eq ∙ before_1601 k)
