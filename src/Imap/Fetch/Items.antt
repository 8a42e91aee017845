-- ===== src/Imap/Fetch/Items.antt =====
-- Steps of the loop over the items of a FETCH line in src/imap/imap_parse.cpp.
use imap2pst.Base.{
  ℕ, zero, suc, ◌+◌, ◌≡◌, refl, ap, ◌∙◌, arith, List, [], ◌∷◌, ◌++◌, All, Option, some, true, false,
  ◌==◌, ◌||◌, leb, ltb, length, drop,
}
use imap2pst.Imap.Strings.{skip_in, ends_atom, lower}
use imap2pst.Imap.Strings.Cursor.{get_or_at, skip_at, inside}
use imap2pst.Imap.Strings.Atom.{IsAtomByte, IsFirst, skip_one, read_as_atom}
use imap2pst.Imap.Lines.{parsed}
use imap2pst.Imap.Fetch.{fetch_item, fetch_items}

no_paren : (x : ℕ) → ends_atom x ≡ false → (x == b'(' || x == b')') ≡ false
unfolding ends_atom
no_paren x h = ground arith

module _ {S : Type 0} (handle : List ℕ → List ℕ → ℕ → S → Option (S × ℕ)) where
  -- A parenthesis is passed over.
  pub items_paren :
      (fuel c : ℕ) (before t : List ℕ) (s : S)
      → (c == b' ' || c == 9) ≡ false
      → (c == b'(' || c == b')') ≡ true
      → fetch_items handle (before ++ (c ∷ t)) (suc fuel) (length before) s
        ≡ fetch_items handle (before ++ (c ∷ t)) fuel (suc (length before)) s
  unfolding fetch_items fetch_item
  items_paren fuel c before t s white paren =
      let line : List ℕ = before ++ (c ∷ t) in
      ap (λ i. fetch_item handle line (fetch_items handle line fuel) i s) (skip_at c t before white)
      ∙ rw (fetch_item, inside c t before, get_or_at c t before 0, paren) refl

  pub items_space :
      (fuel : ℕ) (before t : List ℕ) (s : S)
      → fetch_items handle (before ++ (b' ' ∷ t)) (suc fuel) (length before) s
        ≡ fetch_items handle (before ++ (b' ' ∷ t)) (suc fuel) (suc (length before)) s
  unfolding fetch_items
  items_space fuel before t s =
      let line : List ℕ = before ++ (b' ' ∷ t) in
      ap (λ i. fetch_item handle line (fetch_items handle line fuel) i s) (skip_one before t)

  past_end : (line : List ℕ) → skip_in (drop (length line) line) (length line) ≡ length line
  unfolding skip_in
  past_end line = ap (λ u. skip_in u (length line)) (drop_whole line)
    where
      drop_whole : (xs : List ℕ) → drop (length xs) xs ≡ []
      drop_whole [] = refl
      drop_whole (x ∷ xs) = drop_whole xs

  pub items_end :
      (fuel : ℕ) (line : List ℕ) (s : S) → fetch_items handle line fuel (length line) s ≡ parsed s
  unfolding fetch_items fetch_item
  items_end zero line s = rw (irreflexive (length line)) refl
    where
      irreflexive : (n : ℕ) → ltb n n ≡ false
      irreflexive n = ground arith
  items_end (suc fuel) line s =
      ap (λ i. fetch_item handle line (fetch_items handle line fuel) i s) (past_end line)
      ∙ rw (fetch_item, reflexive (length line)) refl
    where
      reflexive : (n : ℕ) → leb n n ≡ true
      reflexive n = ground arith

  -- A key, up to the byte that ends it, and what is done with it.
  pub items_key :
      (fuel : ℕ) (before xs t : List ℕ) (x c : ℕ) (s s' : S) (i : ℕ)
      → IsFirst x
      → All IsAtomByte xs
      → ends_atom c ≡ true
      → (let line = before ++ (x ∷ (xs ++ (c ∷ t))) in
          handle line (lower (x ∷ xs)) (length before + suc (length xs)) s ≡ some (s', i))
      → (let line = before ++ (x ∷ (xs ++ (c ∷ t))) in
          fetch_items handle line (suc fuel) (length before) s ≡ fetch_items handle line fuel i s')
  unfolding fetch_items fetch_item
  items_key fuel before xs t x c s s' i first h e handled =
      let line : List ℕ = before ++ (x ∷ (xs ++ (c ∷ t))) in
      ap (λ i. fetch_item handle line (fetch_items handle line fuel) i s)
        (skip_at x (xs ++ (c ∷ t)) before first.white)
      ∙ rw
          (
            fetch_item,
            inside x (xs ++ (c ∷ t)) before,
            get_or_at x (xs ++ (c ∷ t)) before 0,
            no_paren x first.atom,
            read_as_atom before xs t x c first h e,
            read_as_atom before xs t x c first h e,
            handled,
          )
          refl
