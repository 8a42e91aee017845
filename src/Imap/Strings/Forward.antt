-- ===== src/Imap/Strings/Forward.antt =====
-- The cursor of `readAstring` of src/imap/imap_parse.cpp moves forward, where no number of the text is so large that
-- the sum of a place and a length wraps.
use imap2pst.Base.{
  not, get_or, ℕ, zero, suc, ◌+◌, ◌-◌, ◌^◌, ◌≤◌, ◌<◌, ◌≡◌, ◌⊎◌, refl, sym, ◌∙◌, arith, List, [],
  ◌∷◌, Option, none, some, Bool, true, false, ◌&&◌, ◌||◌, ◌==◌, ltb, if◌then◌else◌, inl, inr,
  length, drop, slice, length-drop, Bool-cases, Option-cases, and_true, u64,
}
use imap2pst.Base.Text.{find_byte, find_in}
use imap2pst.Imap.Strings.{
  skip_in, skip_space, quoted_in, ends_atom, atom_end, strtoul, literal_start, read_literal,
  read_atom, read_astring,
}

-- Whether no opening brace of a text stands before a number that `strtoul` reads as 2 ^ 63 or more.
unfoldable pub is_tame : List ℕ → Bool
is_tame [] = true
is_tame (c ∷ cs) = (not (c == b'{') || ltb (strtoul cs) (2 ^ 63)) && is_tame cs

pub tame_drop :
    (i : ℕ) (s : List ℕ)
    → is_tame s ≡ true
    → (get_or s i 0 == b'{') ≡ true
    → strtoul (drop (suc i) s) < 2 ^ 63
unfolding is_tame
tame_drop zero [] h brace = ground arith
tame_drop (suc i) [] h brace = ground arith
tame_drop zero (c ∷ cs) h brace =
    ground (arith, and_true (not (c == b'{') || ltb (strtoul cs) (2 ^ 63)) (is_tame cs) h)
tame_drop (suc i) (c ∷ cs) h brace =
    tame_drop i cs (and_true (not (c == b'{') || ltb (strtoul cs) (2 ^ 63)) (is_tame cs) h).1 brace

-- A reader's answer at place `i`: the cursor does not go back, and it moves where a text was read.
abbrev pub IsForward : ℕ → Option (List ℕ) × ℕ → Type 0
IsForward i r = (i ≤ r.1) × ((r.0 ≡ none) ⊎ (i < r.1))

pub skip_in-le : (xs : List ℕ) (i : ℕ) → i ≤ skip_in xs i
unfolding skip_in
skip_in-le [] i = omega arith
skip_in-le (c ∷ cs) i = elim (Bool-cases (c == b' ' || c == 9)) [
  | inl e ↦ rw (skip_in, e) (omega (arith, skip_in-le cs (suc i)))
  | inr e ↦ rw (skip_in, e) (omega arith)
]

atom_end-le : (xs : List ℕ) (i : ℕ) → i ≤ atom_end xs i
unfolding atom_end
atom_end-le [] i = omega arith
atom_end-le (c ∷ cs) i = elim (Bool-cases (ends_atom c)) [
  | inl e ↦ rw (atom_end, e) (omega arith)
  | inr e ↦ rw (atom_end, e) (omega (arith, atom_end-le cs (suc i)))
]

quoted_in-le : (xs : List ℕ) (i : ℕ) → i ≤ (quoted_in xs i).1
unfolding quoted_in
quoted_in-le [] i = omega arith
quoted_in-le (c ∷ []) i = elim (Bool-cases (c == b'"')) [
  | inl e ↦ rw (quoted_in, e) (omega arith)
  | inr e ↦ rw (quoted_in, e) (omega arith)
]
quoted_in-le (c ∷ d ∷ cs) i = elim (Bool-cases (c == b'"')) [
  | inl e ↦ rw (quoted_in, e) (omega arith)
  | inr e ↦ elim (Bool-cases (c == b'\\')) [
    | inl b ↦ rw (quoted_in, e, b) (omega (arith, quoted_in-le cs (suc (suc i))))
    | inr b ↦ rw (quoted_in, e, b) (omega (arith, quoted_in-le (d ∷ cs) (suc i)))
  ]
]

pub find_in-bounds :
    (c : ℕ) (xs : List ℕ) (i k : ℕ) → find_in c xs i ≡ some k → (i ≤ k) × (k < i + length xs)
unfolding find_in
find_in-bounds c [] i k h = absurd (cc h)
find_in-bounds c (d ∷ ds) i k h = elim (Bool-cases (d == c)) [
  | inl e ↦
      let first : find_in c (d ∷ ds) i ≡ some i = rw (find_in, e) refl in
      let same : i ≡ k = cc (first, h) in (omega (arith, same), omega (arith, same))
  | inr e ↦
      let next : find_in c (d ∷ ds) i ≡ find_in c ds (suc i) = rw (find_in, e) refl in
      let rest = find_in-bounds c ds (suc i) k (sym next ∙ h) in
      (omega (arith, rest.0), omega (arith, rest.1))
]

literal_start-bounds :
    (s : List ℕ) (close : ℕ) → (close < literal_start s close) × (literal_start s close ≤ close + 3)
unfolding literal_start
literal_start-bounds s close = (ground arith, ground arith)

read_literal-IsForward :
    (s : List ℕ) (i : ℕ)
    → length s < 2 ^ 63 - 4
    → strtoul (drop (suc i) s) < 2 ^ 63
    → IsForward i (read_literal s i)
unfolding read_literal
read_literal-IsForward s i few n = elim (Option-cases (find_byte b'}' s i)) [
  | inl e ↦ rw (read_literal, e) (omega arith, inl refl)
  | inr (close, e) ↦
      let bounds = find_in-bounds b'}' (drop i s) i close e in
      let start = literal_start-bounds s close in
      let stop : u64 (literal_start s close + strtoul (drop (suc i) s))
          ≡ literal_start s close + strtoul (drop (suc i) s) =
        fits _ (omega (arith, few, bounds.0, bounds.1, start.1, n, length-drop i s)) in
      rw (read_literal, e) (moves i _ _ _ (omega (arith, stop, bounds.0, start.0)))
]
  where
    fits : (n : ℕ) → n < 2 ^ 64 → u64 n ≡ n
    fits n h = omega arith

    moves :
        (i n j : ℕ) (t : List ℕ)
        → i < j
        → (let r : Option (List ℕ) × ℕ = if ltb n j then (none, i) else (some t, j) in
            (i ≤ r.1) × ((r.0 ≡ none) ⊎ (i < r.1)))
    moves i n j t h = elim (Bool-cases (ltb n j)) [
      | inl e ↦ rw e (omega arith, inl refl)
      | inr e ↦ rw e (omega arith, inr h)
    ]

read_atom-IsForward : (s : List ℕ) (i : ℕ) → IsForward i (read_atom s i)
unfolding read_atom
read_atom-IsForward s i =
    moves (atom_end (drop i s) i) (slice s i (atom_end (drop i s) i - i)) (atom_end-le (drop i s) i)
  where
    moves :
        (j : ℕ) (t : List ℕ)
        → i ≤ j
        → (let r : Option (List ℕ) × ℕ = if j == i then (none, i) else (some t, j) in
            (i ≤ r.1) × ((r.0 ≡ none) ⊎ (i < r.1)))
    moves j t h = elim (Bool-cases (j == i)) [
      | inl e ↦ rw e (omega arith, inl refl)
      | inr e ↦ rw e (h, inr (ground arith))
    ]

choose-IsForward :
    (i : ℕ) (b q l : Bool) (x y z w : Option (List ℕ) × ℕ)
    → IsForward i x
    → IsForward i y
    → (l ≡ true → IsForward i z)
    → IsForward i w
    → IsForward i (if b then x else if q then y else if l then z else w)
choose-IsForward i true q l x y z w hx hy hz hw = hx
choose-IsForward i false true l x y z w hx hy hz hw = hy
choose-IsForward i false false true x y z w hx hy hz hw = hz refl
choose-IsForward i false false false x y z w hx hy hz hw = hw

further : (i j : ℕ) (r : Option (List ℕ) × ℕ) → i ≤ j → IsForward j r → IsForward i r
further i j r h (le, inl e) = (omega (arith, h, le), inl e)
further i j r h (le, inr lt) = (omega (arith, h, le), inr (omega (arith, h, lt)))

pub read_astring-IsForward :
    (s : List ℕ) (i : ℕ) → length s < 2 ^ 63 - 4 → is_tame s ≡ true → IsForward i (read_astring s i)
unfolding read_astring
read_astring-IsForward s i few tame =
    let j : ℕ = skip_space s i in
    let le : i ≤ j = skip_in-le (drop i s) i in
    let q : List ℕ × ℕ = quoted_in (drop (suc j) s) (suc j) in
    let quoted : suc j ≤ q.1 = quoted_in-le (drop (suc j) s) (suc j) in
    choose-IsForward i _ _ _ (none, j) (some q.0, q.1) (read_literal s j) (read_atom s j)
      (le, inl refl) (omega (arith, le, quoted), inr (omega (arith, le, quoted)))
      (λ brace. further i j _ le (read_literal-IsForward s j few (tame_drop j s tame brace)))
      (further i j _ le (read_atom-IsForward s j))
