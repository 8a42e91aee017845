-- ===== src/Imap/Strings/Quoted.antt =====
-- Quoted strings under `readAstring` of src/imap/imap_parse.cpp.
use imap2pst.Base.{
  ℕ, suc, ◌+◌, ◌<◌, ◌≡◌, refl, ap, ◌∙◌, arith, List, [], ◌∷◌, ◌++◌, append_assoc, some, Bool,
  Bool-cases, inl, inr, true, false, ◌==◌, ◌||◌, length, length-append,
}
use imap2pst.Imap.Strings.{quoted_in, read_astring}
use imap2pst.Imap.Strings.Cursor.{read_as_quoted}

-- How a text is written between quotes.
unfoldable pub quote_text : List ℕ → List ℕ
quote_text [] = []
quote_text (c ∷ cs) = elim (c == b'"' || c == b'\\') [
  | true ↦ b'\\' ∷ c ∷ quote_text cs
  | false ↦ c ∷ quote_text cs
]

pub quoted : List ℕ → List ℕ
quoted text = b'"' ∷ (quote_text text ++ (b'"' ∷ []))

quote_special :
    (c : ℕ) (cs : List ℕ)
    → (c == b'"' || c == b'\\') ≡ true
    → quote_text (c ∷ cs) ≡ b'\\' ∷ c ∷ quote_text cs
unfolding quote_text
quote_special c cs e = rw (quote_text, e) refl

quote_plain :
    (c : ℕ) (cs : List ℕ)
    → (c == b'"' || c == b'\\') ≡ false
    → quote_text (c ∷ cs) ≡ c ∷ quote_text cs
unfolding quote_text
quote_plain c cs e = rw (quote_text, e) refl

quoted_step :
    (c i : ℕ) (cs : List ℕ)
    → 0 < length cs
    → (c == b'"' || c == b'\\') ≡ false
    → quoted_in (c ∷ cs) i ≡ (let rest = quoted_in cs (suc i) in (c ∷ rest.0, rest.1))
unfolding quoted_in
quoted_step c i [] some_byte e = absurd (omega arith)
quoted_step c i (d ∷ cs) some_byte e =
    rw (quoted_in, or_left (c == b'"') (c == b'\\') e, or_right (c == b'"') (c == b'\\') e) refl
  where
    or_left : (a b : Bool) → (a || b) ≡ false → a ≡ false
    or_left a b e = ground arith

    or_right : (a b : Bool) → (a || b) ≡ false → b ≡ false
    or_right a b e = ground arith

quoted_in-quote_text :
    (text rest : List ℕ) (i : ℕ)
    → quoted_in (quote_text text ++ (b'"' ∷ rest)) i ≡ (text, suc (i + length (quote_text text)))
unfolding quote_text quoted_in
quoted_in-quote_text [] rest i = at_end rest i ∙ ap (λ n. ([], n)) (omega arith)
  where
    at_end : (rest : List ℕ) (i : ℕ) → quoted_in (b'"' ∷ rest) i ≡ ([], suc i)
    at_end [] i = refl
    at_end (c ∷ cs) i = refl
quoted_in-quote_text (c ∷ cs) rest i = elim (Bool-cases (c == b'"' || c == b'\\')) [
  | inl special ↦
      ap (λ t. quoted_in (t ++ (b'"' ∷ rest)) i) (quote_special c cs special)
      ∙ ap (λ r. (c ∷ r.0, r.1)) (quoted_in-quote_text cs rest (suc (suc i)))
      ∙ ap (λ n. (c ∷ cs, n)) (omega (arith, ap length (quote_special c cs special)))
  | inr plain ↦
      ap (λ t. quoted_in (t ++ (b'"' ∷ rest)) i) (quote_plain c cs plain)
      ∙ quoted_step c i (quote_text cs ++ (b'"' ∷ rest))
          (omega (arith, length-append (quote_text cs) (b'"' ∷ rest))) plain
      ∙ ap (λ r. (c ∷ r.0, r.1)) (quoted_in-quote_text cs rest (suc i))
      ∙ ap (λ n. (c ∷ cs, n)) (omega (arith, ap length (quote_plain c cs plain)))
]

-- A text between quotes, with a backslash before each quote and each backslash of it, is read back from wherever it
-- stands, and the cursor is then behind the closing quote.
pub read_astring-quoted :
    (before text after : List ℕ)
    → read_astring (before ++ (quoted text ++ after)) (length before)
      ≡ (some text, length before + length (quoted text))
unfolding quoted
read_astring-quoted before text after =
    let s : List ℕ = before ++ (b'"' ∷ ((quote_text text ++ (b'"' ∷ [])) ++ after)) in
    read_as_quoted before ((quote_text text ++ (b'"' ∷ [])) ++ after)
    ∙ ap (λ t. let q = quoted_in t (suc (length before)) in (some q.0, q.1))
        (append_assoc (quote_text text) (b'"' ∷ []) after)
    ∙ ap (λ (q : List ℕ × ℕ). (some q.0, q.1))
        (quoted_in-quote_text text after (suc (length before)))
    ∙ ap (λ n. (some text, n)) (omega (arith, length-append (quote_text text) (b'"' ∷ [])))
