-- ===== src/Imap/Fetch/Ends.antt =====
-- The loop over the items of a FETCH line in src/imap/imap_parse.cpp comes to its end.
use imap2pst.Base.{
  ℕ, zero, suc, ◌+◌, ◌-◌, ◌^◌, ◌≤◌, ◌<◌, ◌≡◌, ◌⊎◌, refl, subst, arith, List, Option, none, some,
  Bool, true, false, ◌==◌, ◌||◌, ltb, leb, inl, inr, length, get_or, drop, Bool-cases, Option-cases,
  slice, if◌then◌else◌,
}
use imap2pst.Base.Int.{ℤ}
use imap2pst.Base.Text.{same_text, is_prefix, ascii, find_byte}
use imap2pst.Imap.Strings.{skip_space, read_astring, lower}
use imap2pst.Imap.Strings.Forward.{is_tame, skip_in-le, find_in-bounds, read_astring-IsForward}
use imap2pst.Imap.Lines.{Parsed, parsed}
use imap2pst.Imap.Fetch.{
  fetch_item, fetch_items, fetch_start, FetchedBody, no_body, body_item, body_line, MessageMeta,
  no_meta, meta_item, meta_line, set_flags,
}

-- A parser's answer that is a result.
abbrev pub IsParsed {ℓ} : {A : Type ℓ} → Parsed A → Type ℓ
IsParsed {A = A} r = (a : A) × (r ≡ parsed a)

-- What is done with a key leaves the cursor at place `i` or behind it.
abbrev IsAhead : {S : Type 0} → ℕ → Option (S × ℕ) → Type 0
IsAhead i none = Unit
IsAhead i (some r) = i ≤ r.1

module _ {S : Type 0} (handle : List ℕ → List ℕ → ℕ → S → Option (S × ℕ)) (line : List ℕ)
    (few : length line < 2 ^ 63 - 4) (tame : is_tame line ≡ true)
    (ahead : (k : List ℕ) (i : ℕ) (s : S) → IsAhead i (handle line k i s)) where
  item-IsParsed :
      (rest : ℕ → S → Parsed S) (i : ℕ) (s : S)
      → ((j : ℕ) (t : S) → i < j → IsParsed (rest j t))
      → IsParsed (fetch_item handle line rest i s)
  unfolding fetch_item
  item-IsParsed rest i s go = elim (Bool-cases (leb (length line) i)) [
    | inl e ↦ (s, rw (fetch_item, e) refl)
    | inr e ↦ elim (Bool-cases (get_or line i 0 == b'(' || get_or line i 0 == b')')) [
      | inl p ↦ let r = go (suc i) s (omega arith) in (r.0, rw (fetch_item, e, p) r.1)
      | inr p ↦ elim (Option-cases (read_astring line i).0) [
        | inl n ↦ (s, rw (fetch_item, e, p, n) refl)
        | inr (key, k) ↦
            let at : ℕ = (read_astring line i).1 in
            let moved : i < at = past _ key at (read_astring-IsForward line i few tame).1 k in
            elim (Option-cases (handle line (lower key) at s)) [
              | inl h ↦ (s, rw (fetch_item, e, p, k, h) refl)
              | inr (next, h) ↦
                  let le : at ≤ next.1 = behind at _ next h (ahead (lower key) at s) in
                  let r = go next.1 next.0 (omega (arith, moved, le)) in
                  (r.0, rw (fetch_item, e, p, k, h) r.1)
            ]
      ]
    ]
  ]
    where
      past :
          (o : Option (List ℕ)) (key : List ℕ) (j : ℕ)
          → ((o ≡ none) ⊎ (i < j))
          → o ≡ some key
          → i < j
      past o key j (inl n) e = absurd (cc (n, e))
      past o key j (inr lt) e = lt

      behind :
          (j : ℕ) (o : Option (S × ℕ)) (next : S × ℕ) → o ≡ some next → IsAhead j o → j ≤ next.1
      behind j o next e h = subst (IsAhead j) e h

  -- As much fuel as there are bytes left is enough.
  items-IsParsed :
      (fuel i : ℕ) (s : S) → length line ≤ i + fuel → IsParsed (fetch_items handle line fuel i s)
  unfolding fetch_items
  items-IsParsed zero i s enough =
      (s, rw (fetch_items, not_before i (length line) (omega arith)) refl)
    where
      not_before : (i n : ℕ) → n ≤ i → ltb i n ≡ false
      not_before i n h = ground arith
  items-IsParsed (suc fuel) i s enough =
      let le : i ≤ skip_space line i = skip_in-le (drop i line) i in
      item-IsParsed (fetch_items handle line fuel) (skip_space line i) s
        (λ j t lt. items-IsParsed fuel j t (omega (arith, lt, le, enough)))

module _ {S : Type 0} (i : ℕ) where
  either-IsAhead :
      (b : Bool) (x y : Option (S × ℕ)) → IsAhead i x → IsAhead i y → IsAhead i (if b then x else y)
  either-IsAhead true x y hx hy = hx
  either-IsAhead false x y hx hy = hy

  found-IsAhead :
      {A : Type 0} (o : Option A) (s : S) (j : A → ℕ) (t : A → S)
      → ((a : A) → o ≡ some a → i ≤ j a)
      → IsAhead i (elim o [ none ↦ none | some a ↦ some (t a, j a) ])
  found-IsAhead none s j t h = tt
  found-IsAhead (some a) s j t h = h a refl

module _ (line : List ℕ) (few : length line < 2 ^ 63 - 4) (tame : is_tame line ≡ true) where
  body_item-IsAhead : (k : List ℕ) (i : ℕ) (s : FetchedBody) → IsAhead i (body_item line k i s)
  unfolding body_item
  body_item-IsAhead k i s =
      let le = (read_astring-IsForward line i few tame).0 in
      either-IsAhead i (same_text k (ascii "uid")) _ _ le (
        either-IsAhead i (is_prefix (ascii "body[") k || same_text k (ascii "rfc822")) _ _ le (
          found-IsAhead i (read_astring line i).0 s (λ t. (read_astring line i).1) (λ t. s)
            (λ t e. le)))

  meta_item-IsAhead :
      (parse_internal_date : List ℕ → ℤ) (k : List ℕ) (i : ℕ) (s : MessageMeta)
      → IsAhead i (meta_item parse_internal_date line k i s)
  unfolding meta_item
  meta_item-IsAhead parse_internal_date k i s =
      let le = (read_astring-IsForward line i few tame).0 in
      let j : ℕ = skip_space line i in
      either-IsAhead i (same_text k (ascii "uid")) _ _ le (
        either-IsAhead i (same_text k (ascii "rfc822.size")) _ _ le (
          either-IsAhead i (same_text k (ascii "flags")) _ _
            (found-IsAhead i (find_byte b')' line j) s suc
              (λ close. set_flags (slice line j (close - j + 1)) s)
              (λ close e. omega (
                arith,
                skip_in-le (drop i line) i,
                (find_in-bounds b')' (drop j line) j close e).0,
              )))
            (either-IsAhead i (same_text k (ascii "internaldate")) _ _ le (omega arith))))

  -- On a line of fewer than 2 ^ 63 - 4 bytes, the loops over the items of parseFetchBodies and of parseFetchResponse
  -- end, if no opening brace of the line stands before a number that `strtoul` reads as 2 ^ 63 or more.
  pub body_line-IsParsed :
      (parse_internal_date : List ℕ → ℤ)
      → IsParsed (body_line line) × IsParsed (meta_line parse_internal_date line)
  unfolding body_line meta_line
  body_line-IsParsed parse_internal_date = elim (Option-cases (fetch_start line)) [
    | inl e ↦ ((no_body, rw (body_line, e) refl), (no_meta, rw (meta_line, e) refl))
    | inr (i, e) ↦
        let b =
          items-IsParsed body_item line few tame body_item-IsAhead (length line) i no_body
            (omega arith) in
        let m =
          items-IsParsed (meta_item parse_internal_date) line few tame
            (meta_item-IsAhead parse_internal_date) (length line) i no_meta (omega arith) in
        ((b.0, rw (body_line, e) b.1), (m.0, rw (meta_line, e) m.1))
  ]
