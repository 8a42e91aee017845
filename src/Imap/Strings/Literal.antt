-- ===== src/Imap/Strings/Literal.antt =====
-- Literals under `readAstring` of src/imap/imap_parse.cpp.
use imap2pst.Base.{
  ℕ, zero, suc, ◌+◌, ◌-◌, ◌*◌, ◌/◌, ◌%◌, ◌^◌, ◌≤◌, ◌<◌, ◌≡◌, refl, sym, ap, ap₂, subst, ◌∙◌, arith,
  List, [], ◌∷◌, ◌++◌, append_assoc, append-nil, All, some, Bool-cases, inl, inr, true, false, ◌&&◌,
  ◌==◌, ltb, length, get_or, take, drop, slice, length-append, drop-append, take-append, u64,
}
use imap2pst.Base.Text.{find_in, find_byte}
use imap2pst.Imap.UidSet.{put_digits, to_string}
use imap2pst.Imap.UidSet.Reader.{read_number}
use imap2pst.Imap.UidSet.Digits.{read-to_string}
use imap2pst.Imap.Strings.{
  is_digit, is_white, digits_value, signed_value, unsigned_text, strtoul, literal_start,
  read_literal, read_astring,
}
use imap2pst.Imap.Strings.Cursor.{get_or_at, drop_past, read_as_literal}

abbrev pub IsDigit : ℕ → Type 0
IsDigit c = is_digit c ≡ true

-- `{n}`, the line break and the bytes.
unfoldable pub literal : List ℕ → List ℕ
literal bytes = b'{' ∷ (to_string (length bytes) ++ (b'}' ∷ 13 ∷ 10 ∷ bytes))

digits_value-eq-read_number : (n : ℕ) (text : List ℕ) → digits_value n text ≡ (read_number n text).0
unfolding digits_value read_number
digits_value-eq-read_number n [] = refl
digits_value-eq-read_number n (c ∷ cs) = elim (Bool-cases (is_digit c)) [
  | inl digit ↦
      rw (digits_value, read_number, digit) (digits_value-eq-read_number (n * 10 + (c - 48)) cs)
  | inr other ↦ rw (digits_value, read_number, other) refl
]

put_digits-IsDigit :
    (fuel n : ℕ) (text : List ℕ) → All IsDigit text → All IsDigit (put_digits fuel n text)
unfolding put_digits is_digit
put_digits-IsDigit zero n text h = h
put_digits-IsDigit (suc fuel) n text h = elim (Bool-cases (n / 10 == 0)) [
  | inl last ↦ rw last (ground arith, h)
  | inr more ↦ rw more (put_digits-IsDigit fuel (n / 10) ((48 + n % 10) ∷ text) (ground arith, h))
]

find_in_past :
    (c i : ℕ) (xs ys : List ℕ)
    → All IsDigit xs
    → is_digit c ≡ false
    → find_in c (xs ++ (c ∷ ys)) i ≡ some (i + length xs)
unfolding find_in is_digit
find_in_past c i [] ys h e = ground arith
find_in_past c i (x ∷ xs) ys h e =
    rw (find_in, other c x e h.0) (find_in_past c (suc i) xs ys h.1 e ∙ ap some (omega arith))
  where
    other : (c x : ℕ) → is_digit c ≡ false → is_digit x ≡ true → (x == c) ≡ false
    other c x e h = ground arith

-- Numbers as the standard library reads them.
digit_is :
    (c : ℕ)
    → is_digit c ≡ true
    → (is_white c ≡ false) × ((c == b'-') ≡ false) × ((c == b'+') ≡ false)
unfolding is_digit is_white
digit_is c e = (ground arith, ground arith, ground arith)

digits_first :
    (c : ℕ) (cs : List ℕ)
    → is_digit c ≡ true
    → strtoul (c ∷ cs) ≡ signed_value false (digits_value 0 (c ∷ cs))
unfolding strtoul unsigned_text
digits_first c cs e =
    rw (strtoul, (digit_is c e).0, unsigned_text, (digit_is c e).1, (digit_is c e).2) refl

digits_text :
    (xs rest : List ℕ)
    → All IsDigit xs
    → 0 < length xs
    → strtoul (xs ++ rest) ≡ signed_value false (digits_value 0 (xs ++ rest))
digits_text [] rest h some_digit = absurd (omega arith)
digits_text (x ∷ xs) rest h some_digit = digits_first x (xs ++ rest) h.0

put_digits-longer :
    (fuel n : ℕ) (text : List ℕ) → length text < length (put_digits (suc fuel) n text)
unfolding put_digits
put_digits-longer zero n text = elim (Bool-cases (n / 10 == 0)) [
  | inl last ↦ rw last (omega arith)
  | inr more ↦ rw more (omega arith)
]
put_digits-longer (suc fuel) n text = elim (Bool-cases (n / 10 == 0)) [
  | inl last ↦ rw last (omega arith)
  | inr more ↦ rw more (omega (arith, put_digits-longer fuel (n / 10) ((48 + n % 10) ∷ text)))
]

pub to_string-IsDigit : (n : ℕ) → All IsDigit (to_string n)
unfolding to_string
to_string-IsDigit n = put_digits-IsDigit 10 n [] tt

no_digits : (m : ℕ) → read_number m [] ≡ (m, [])
unfolding read_number
no_digits m = refl

digit_stops :
    (c : ℕ) (rest : List ℕ) (m : ℕ) → is_digit c ≡ false → read_number m (c ∷ rest) ≡ (m, c ∷ rest)
unfolding read_number
digit_stops c rest m stop = rw (read_number, stop) refl

strtoul-to_string :
    (n c : ℕ) (rest : List ℕ)
    → n < 2 ^ 32
    → is_digit c ≡ false
    → strtoul (to_string n ++ (c ∷ rest)) ≡ n
unfolding to_string signed_value
strtoul-to_string n c rest small stop =
    digits_text (to_string n) (c ∷ rest) (to_string-IsDigit n) (put_digits-longer 9 n [])
    ∙ ap (signed_value false) (
        digits_value-eq-read_number 0 (to_string n ++ (c ∷ rest))
        ∙ ap (λ r. r.0) (read-to_string n (c ∷ rest) small (λ m. digit_stops c rest m stop)))
    ∙ ground arith

pub some_digit : (n : ℕ) → 0 < length (to_string n)
unfolding to_string
some_digit n = put_digits-longer 9 n []

pub strtoul-to_string_end : (n : ℕ) → n < 2 ^ 32 → strtoul (to_string n) ≡ n
unfolding signed_value
strtoul-to_string_end n small =
    ap strtoul (sym (append-nil (to_string n)))
    ∙ digits_text (to_string n) [] (to_string-IsDigit n) (some_digit n)
    ∙ ap (signed_value false) (
        digits_value-eq-read_number 0 (to_string n ++ [])
        ∙ ap (λ r. r.0) (read-to_string n [] small (λ m. no_digits m)))
    ∙ ground arith

-- Where the bytes of a literal begin.
byte_at :
    (c : ℕ) (p t : List ℕ)
    → (ltb (length p) (length (p ++ (c ∷ t))) && (get_or (p ++ (c ∷ t)) (length p) 0 == c)) ≡ true
byte_at c p t = rw (get_or_at c t p 0) (ground (arith, length-append p (c ∷ t)))

literal_start_at :
    (p rest : List ℕ) (close : ℕ)
    → suc close ≡ length p
    → literal_start (p ++ (13 ∷ 10 ∷ rest)) close ≡ suc (suc (length p))
unfolding literal_start
literal_start_at p rest close e =
    let s : List ℕ = p ++ (13 ∷ 10 ∷ rest) in
    let moved : s ≡ (p ++ (13 ∷ [])) ++ (10 ∷ rest) = sym (append_assoc p (13 ∷ []) (10 ∷ rest)) in
    let end : length (p ++ (13 ∷ [])) ≡ suc (length p) = omega (arith, length-append p (13 ∷ [])) in
    rw (e, byte_at 13 p (10 ∷ rest))
      (rw
        (subst (λ k. (ltb k (length s) && (get_or s k 0 == 10)) ≡ true) end
          (subst
            (λ t.
              (ltb (length (p ++ (13 ∷ []))) (length t)
                && (get_or t (length (p ++ (13 ∷ []))) 0 == 10))
              ≡ true)
            (sym moved) (byte_at 10 (p ++ (13 ∷ [])) rest)))
        refl)

read_literal_by :
    (s : List ℕ) (i close n start : ℕ)
    → find_byte b'}' s i ≡ some close
    → strtoul (drop (suc i) s) ≡ n
    → literal_start s close ≡ start
    → start + n ≤ length s
    → length s < 2 ^ 64
    → read_literal s i ≡ (some (slice s start n), start + n)
unfolding read_literal
read_literal_by s i close n start e_close e_n e_start inside small =
    rw
      (
        read_literal,
        e_close,
        e_n,
        e_start,
        fits (start + n) (length s) inside small,
        below (start + n) (length s) inside,
      )
      refl
  where
    fits : (a b : ℕ) → a ≤ b → b < 2 ^ 64 → u64 a ≡ a
    fits a b le small = omega arith

    below : (a b : ℕ) → a ≤ b → ltb b a ≡ false
    below a b le = ground arith

-- A literal is read back from wherever it stands in a text of less than 2 ^ 64 bytes, whatever its bytes are, as long
-- as they are fewer than 2 ^ 32; and the cursor is then behind its last byte.
pub read_astring-literal :
    (before bytes after : List ℕ)
    → length bytes < 2 ^ 32
    → length (before ++ (literal bytes ++ after)) < 2 ^ 64
    → read_astring (before ++ (literal bytes ++ after)) (length before)
      ≡ (some bytes, length before + length (literal bytes))
unfolding literal find_in is_digit
read_astring-literal before bytes after small total =
    let n : ℕ = length bytes in
    let digits : List ℕ = to_string n in
    let rest : List ℕ = bytes ++ after in
    let t : List ℕ = digits ++ (b'}' ∷ 13 ∷ 10 ∷ rest) in
    let s : List ℕ = before ++ (b'{' ∷ t) in
    let p : List ℕ = before ++ (b'{' ∷ (digits ++ (b'}' ∷ []))) in
    let close : ℕ = suc (length before) + length digits in
    let same : before ++ (literal bytes ++ after) ≡ s =
      ap (λ u. before ++ (b'{' ∷ u)) (append_assoc digits (b'}' ∷ 13 ∷ 10 ∷ bytes) after) in
    let split : s ≡ p ++ (13 ∷ 10 ∷ rest) = sym (
      append_assoc before (b'{' ∷ (digits ++ (b'}' ∷ []))) (13 ∷ 10 ∷ rest)
      ∙ ap (λ u. before ++ (b'{' ∷ u)) (append_assoc digits (b'}' ∷ []) (13 ∷ 10 ∷ rest))) in
    let size : length p ≡ suc close =
      length-append before (b'{' ∷ (digits ++ (b'}' ∷ [])))
      ∙ omega (arith, length-append digits (b'}' ∷ [])) in
    let q : List ℕ = p ++ (13 ∷ 10 ∷ []) in
    let q_size : length q ≡ suc (suc (length p)) = length-append p (13 ∷ 10 ∷ []) ∙ omega arith in
    let split2 : s ≡ q ++ rest = split ∙ sym (append_assoc p (13 ∷ 10 ∷ []) rest) in
    let total_size : length s ≡ length q + (n + length after) =
      ap length split2 ∙ length-append q rest ∙ omega (arith, length-append bytes after) in
    ap (λ u. read_astring u (length before)) same
    ∙ read_as_literal before t
    ∙ read_literal_by s (length before) close n (length q)
        (ap (λ u. find_in b'}' u (length before)) (drop-append before (b'{' ∷ t))
          ∙ find_in_past b'}' (suc (length before)) digits (13 ∷ 10 ∷ rest) (to_string-IsDigit n)
              refl)
        (ap strtoul (drop_past b'{' t before)
          ∙ strtoul-to_string n b'}' (13 ∷ 10 ∷ rest) small refl)
        (ap (λ u. literal_start u close) split
          ∙ literal_start_at p rest close (sym size)
          ∙ sym q_size)
        (omega (arith, total_size)) (subst (λ u. length u < 2 ^ 64) same total)
    ∙ ap₂ (λ u k. (some u, k))
        (ap (λ u. slice u (length q) n) split2
          ∙ ap (take n) (drop-append q rest)
          ∙ take-append bytes after)
        (omega (arith, q_size, size, length-append digits (b'}' ∷ 13 ∷ 10 ∷ bytes)))
