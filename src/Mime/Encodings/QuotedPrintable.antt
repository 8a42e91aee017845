-- ===== src/Mime/Encodings/QuotedPrintable.antt =====
-- `decodeQuotedPrintable` of src/mime/encodings.cpp against the grammar of quoted-printable text.
use imap2pst.Base.{
  get_or, Option, true, ==→eq, ℕ, zero, suc, ◌+◌, ◌*◌, ◌≤◌, ◌<◌, ◌≡◌, ◌≢◌, refl, ap, ◌∙◌, arith,
  List, [], ◌∷◌, ◌++◌, Bool, false, ◌&&◌, none, some, ◌==◌, if◌then◌else◌, length, All, u8, bit_or,
  ◌<<<◌,
}
use imap2pst.Base.Bits.{bit_or_fields, passes, passes-lt}
use imap2pst.Base.Text.{ascii}
use imap2pst.Mime.Encodings.{
  hex_value, hex_pair, escape, after_soft_return, quoted_loop, decode_quoted_printable,
}

-- A hexadecimal digit, with a small or a capital letter if it has one.
pub record Digit : Type 0 where
  pub small : Bool
  pub value : ℕ

abbrev pub digits_of : Bool → List ℕ
digits_of true = ascii "0123456789abcdef"
digits_of false = ascii "0123456789ABCDEF"

unfoldable pub digit_char : Digit → ℕ
digit_char d = get_or (digits_of d.small) d.value 0

-- A byte in quoted-printable text that stands for itself; a pair of hexadecimal digits behind `=`; a
-- line break behind `=`, which stands for nothing.
pub data Token : Type 0 where
  literal : ℕ → Token
  escaped : Digit → Digit → Token
  soft_break soft_newline : Token

unfoldable pub write_token : Token → List ℕ
write_token (literal c) = c ∷ []
write_token (escaped hi lo) = 0x3D ∷ digit_char hi ∷ digit_char lo ∷ []
write_token soft_break = 0x3D ∷ 0x0D ∷ 0x0A ∷ []
write_token soft_newline = 0x3D ∷ 0x0A ∷ []

unfoldable pub write_tokens : List Token → List ℕ
write_tokens [] = []
write_tokens (t ∷ ts) = write_token t ++ write_tokens ts

unfoldable pub token_bytes : Bool → Token → List ℕ
token_bytes underscore_is_space (literal c) =
    (if c == 0x5F && underscore_is_space then 0x20 else c) ∷ []
token_bytes underscore_is_space (escaped hi lo) = (hi.value * 16 + lo.value) ∷ []
token_bytes underscore_is_space soft_break = []
token_bytes underscore_is_space soft_newline = []

unfoldable pub tokens_bytes : Bool → List Token → List ℕ
tokens_bytes underscore_is_space [] = []
tokens_bytes underscore_is_space (t ∷ ts) =
    token_bytes underscore_is_space t ++ tokens_bytes underscore_is_space ts

pub data IsToken : Token → Type 0 where
  is_literal : {c : ℕ} → c ≢ 0x3D → IsToken (literal c)
  is_escaped : {hi lo : Digit} → hi.value < 16 → lo.value < 16 → IsToken (escaped hi lo)
  is_soft_break : IsToken soft_break
  is_soft_newline : IsToken soft_newline

hex_value-lt : (c v : ℕ) → hex_value c ≡ some v → (v < 16) × (c ≢ 0x0A) × (c ≢ 0x0D)
unfolding hex_value
hex_value-lt c v e = (ground arith, ground arith, ground arith)

-- The digits, by evaluation.
has_value : Option ℕ → ℕ → Bool
has_value none x = false
has_value (some v) x = v == x

has_value-eq : (o : Option ℕ) (x : ℕ) → has_value o x ≡ true → o ≡ some x
unfolding has_value
has_value-eq none x h = absurd (cc h)
has_value-eq (some v) x h = ap some (==→eq v x h)

reads : Bool → ℕ → Bool
reads small x = has_value (hex_value (digit_char (record { small = small; value = x }))) x

hex_value-digit_char : (d : Digit) → d.value < 16 → hex_value (digit_char d) ≡ some d.value
unfolding passes reads has_value hex_value digit_char
hex_value-digit_char d h = has_value-eq _ d.value (either d.small)
  where
    either : (b : Bool) → reads b d.value ≡ true
    either true = passes-lt (reads true) 16 d.value h refl
    either false = passes-lt (reads false) 16 d.value h refl

-- What stands behind the `=` of a pair of digits.
escape-digits :
    (hi lo h l : ℕ) (rest : List ℕ)
    → hex_value hi ≡ some h
    → hex_value lo ≡ some l
    → escape (hi ∷ lo ∷ rest) ≡ ((h * 16 + l) ∷ [], rest)
unfolding escape hex_pair
escape-digits hi lo h l rest eh el =
    let first = hex_value-lt hi h eh in
    let second = hex_value-lt lo l el in
    rw (differs hi 0x0A first.1, differs hi 0x0D first.2)
      (rw (hex_pair, eh, el) (ap (λ b. (b ∷ [], rest)) (byte h l first.0 second.0)))
  where
    differs : (a b : ℕ) → a ≢ b → (a == b) ≡ false
    differs a b k = ground arith

    byte : (h l : ℕ) → h < 16 → l < 16 → u8 (bit_or (h <<< 4) l) ≡ h * 16 + l
    byte h l small_h small_l = omega (arith, bit_or_fields 4 h l small_l)

literal_step :
    (fuel c : ℕ) (us : Bool) (rest : List ℕ)
    → c ≢ 0x3D
    → quoted_loop (suc fuel) us (c ∷ rest) ≡ token_bytes us (literal c) ++ quoted_loop fuel us rest
unfolding quoted_loop token_bytes
literal_step fuel c us rest k = rw (quoted_loop, differs c k) refl
  where
    differs : (c : ℕ) → c ≢ 0x3D → (c == 0x3D) ≡ false
    differs c k = ground arith

token_step :
    (fuel : ℕ) (us : Bool) (t : Token) (rest : List ℕ)
    → IsToken t
    → quoted_loop (suc fuel) us (write_token t ++ rest)
      ≡ token_bytes us t ++ quoted_loop fuel us rest
unfolding quoted_loop write_token token_bytes escape after_soft_return
token_step fuel us (literal c) rest (is_literal k) = literal_step fuel c us rest k
token_step fuel us (escaped hi lo) rest (is_escaped small_hi small_lo) =
    ap (λ p. p.0 ++ quoted_loop fuel us p.1)
      (escape-digits (digit_char hi) (digit_char lo) hi.value lo.value rest
        (hex_value-digit_char hi small_hi) (hex_value-digit_char lo small_lo))
token_step fuel us soft_break rest is_soft_break = refl
token_step fuel us soft_newline [] is_soft_newline = refl
token_step fuel us soft_newline (r ∷ rest) is_soft_newline = refl

write_token-lt : (t : Token) (rest : List ℕ) → length rest < length (write_token t ++ rest)
unfolding write_token
write_token-lt (literal c) rest = omega arith
write_token-lt (escaped hi lo) rest = omega arith
write_token-lt soft_break rest = omega arith
write_token-lt soft_newline rest = omega arith

loop-write_tokens :
    (fuel : ℕ) (us : Bool) (ts : List Token)
    → All IsToken ts
    → length (write_tokens ts) ≤ fuel
    → quoted_loop fuel us (write_tokens ts) ≡ tokens_bytes us ts
unfolding write_tokens tokens_bytes quoted_loop
loop-write_tokens zero us [] h enough = refl
loop-write_tokens (suc fuel) us [] h enough = refl
loop-write_tokens zero us (t ∷ ts) h enough =
    absurd (omega (arith, write_token-lt t (write_tokens ts)))
loop-write_tokens (suc fuel) us (t ∷ ts) h enough =
    token_step fuel us t (write_tokens ts) h.0
    ∙ ap (λ bs. token_bytes us t ++ bs)
        (loop-write_tokens fuel us ts h.1 (omega (arith, write_token-lt t (write_tokens ts))))

-- Text that follows the grammar of quoted-printable is decoded to what its tokens stand for: literal bytes,
-- pairs of digits in either case, and soft line breaks of both kinds; in headers an underscore is a space.
pub decode_quoted_printable-write_tokens :
    (ts : List Token) (underscore_is_space : Bool)
    → All IsToken ts
    → decode_quoted_printable (write_tokens ts) underscore_is_space
      ≡ tokens_bytes underscore_is_space ts
unfolding decode_quoted_printable
decode_quoted_printable-write_tokens ts us h =
    loop-write_tokens (length (write_tokens ts)) us ts h (omega arith)
