-- ===== src/Imap/UidSet/Digits.antt =====
-- `std::to_string` in `uidSet` of src/imap/imap_parse.cpp against the reader of numbers.
use imap2pst.Base.{
  ℕ, zero, suc, ◌+◌, ◌-◌, ◌*◌, ◌/◌, ◌%◌, ◌^◌, ◌<◌, ◌≡◌, ◌≢◌, refl, ap, ◌∙◌, arith, List, [], ◌∷◌,
  ◌++◌, true, Bool-cases, inl, inr, ◌==◌, ==→eq,
}
use native.Mathlib.Nat.{pow-suc}
use imap2pst.Imap.UidSet.{put_digits, to_string}
use imap2pst.Imap.Strings.{is_digit}
use imap2pst.Imap.UidSet.Reader.{read_number}

-- A text at which the reader of numbers stops.
abbrev pub Stops : List ℕ → Type 0
Stops text = (n : ℕ) → read_number n text ≡ (n, text)

read_digit :
    (n d : ℕ) (cs : List ℕ) → d < 10 → read_number n ((48 + d) ∷ cs) ≡ read_number (n * 10 + d) cs
unfolding read_number is_digit
read_digit n d cs h = rw (digit d h, back d) refl
  where
    digit : (d : ℕ) → d < 10 → is_digit (48 + d) ≡ true
    digit d h = ground arith

    back : (d : ℕ) → 48 + d - 48 ≡ d
    back d = omega arith

read-put_digits :
    (fuel n : ℕ) (text : List ℕ)
    → n < 10 ^ fuel
    → read_number 0 (put_digits fuel n text) ≡ read_number n text
unfolding put_digits
read-put_digits zero n text h = ap (λ m. read_number m text) (omega arith)
read-put_digits (suc fuel) n text h = elim (Bool-cases (n / 10 == 0)) [
  | inl small ↦ rw small (
      read_digit 0 (n % 10) text (omega arith)
      ∙ ap (λ m. read_number m text) (omega (arith, ==→eq (n / 10) 0 small)))
  | inr large ↦ rw large (
      read-put_digits fuel (n / 10) ((48 + n % 10) ∷ text) (omega (arith, pow-suc 10 fuel))
      ∙ read_digit (n / 10) (n % 10) text (omega arith)
      ∙ ap (λ m. read_number m text) (omega arith))
]

put_digits-append :
    (fuel n : ℕ) (text rest : List ℕ)
    → put_digits fuel n text ++ rest ≡ put_digits fuel n (text ++ rest)
unfolding put_digits
put_digits-append zero n text rest = refl
put_digits-append (suc fuel) n text rest = elim (Bool-cases (n / 10 == 0)) [
  | inl small ↦ rw small refl
  | inr large ↦ rw large (put_digits-append fuel (n / 10) ((48 + n % 10) ∷ text) rest)
]

-- A number in front of a text that does not go on with digits is read back, and the text left as it is.
pub read-to_string :
    (n : ℕ) (rest : List ℕ)
    → n < 2 ^ 32
    → Stops rest
    → read_number 0 (to_string n ++ rest) ≡ (n, rest)
unfolding to_string
read-to_string n rest small stops =
    ap (read_number 0) (put_digits-append 10 n [] rest)
    ∙ read-put_digits 10 n rest (omega arith)
    ∙ stops n

-- A text that begins with a digit.
pub record IsNumber (text : List ℕ) : Type 0 where
  pub first : ℕ
  pub more : List ℕ
  pub whole : text ≡ first ∷ more
  pub digit : first ≢ 0x2C

put_digits-IsNumber :
    (fuel n c : ℕ) (cs : List ℕ) → c ≢ 0x2C → IsNumber (put_digits fuel n (c ∷ cs))
unfolding put_digits
put_digits-IsNumber zero n c cs h = record { first = c; more = cs; whole = refl; digit = h }
put_digits-IsNumber (suc fuel) n c cs h = elim (Bool-cases (n / 10 == 0)) [
  | inl small ↦
      rw small (record { first = 48 + n % 10; more = c ∷ cs; whole = refl; digit = omega arith })
  | inr large ↦ rw large (put_digits-IsNumber fuel (n / 10) (48 + n % 10) (c ∷ cs) (omega arith))
]

pub to_string-IsNumber : (n : ℕ) → IsNumber (to_string n)
unfolding to_string put_digits
to_string-IsNumber n = elim (Bool-cases (n / 10 == 0)) [
  | inl small ↦
      rw small (record { first = 48 + n % 10; more = []; whole = refl; digit = omega arith })
  | inr large ↦ rw large (put_digits-IsNumber 9 (n / 10) (48 + n % 10) [] (omega arith))
]
