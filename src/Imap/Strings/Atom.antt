-- ===== src/Imap/Strings/Atom.antt =====
-- Atoms and spaces under `readAstring` of src/imap/imap_parse.cpp.
use imap2pst.Base.{
  ℕ, suc, ◌+◌, ◌-◌, ◌≡◌, refl, sym, ap, ◌∙◌, arith, List, [], ◌∷◌, ◌++◌, All, some, true, false,
  ◌==◌, ◌||◌, length, take, drop, drop-append, take-append,
}
use imap2pst.Imap.Strings.{skip_in, skip_space, ends_atom, atom_end, read_atom, read_astring}
use imap2pst.Imap.Strings.Cursor.{get_or_at, drop_past, skip_at, inside}

abbrev pub IsAtomByte : ℕ → Type 0
IsAtomByte c = ends_atom c ≡ false

-- A first byte of an atom that begins neither a quoted string nor a literal, and is no tab.
pub record IsFirst (c : ℕ) : Type 0 where
  pub atom : ends_atom c ≡ false
  pub quote : (c == b'"') ≡ false
  pub brace : (c == b'{') ≡ false
  pub white : (c == b' ' || c == 9) ≡ false

atom_end-append :
    (xs t : List ℕ) (c i : ℕ)
    → All IsAtomByte xs
    → ends_atom c ≡ true
    → atom_end (xs ++ (c ∷ t)) i ≡ i + length xs
unfolding atom_end
atom_end-append [] t c i h e = rw (atom_end, e) (omega arith)
atom_end-append (x ∷ xs) t c i h e =
    rw (atom_end, h.0) (atom_end-append xs t c (suc i) h.1 e ∙ omega arith)

-- The cursor at a space is as good as behind it.
pub skip_one :
    (before t : List ℕ)
    → (let s = before ++ (b' ' ∷ t) in
        skip_space s (length before) ≡ skip_space s (suc (length before)))
unfolding skip_in
skip_one before t =
    ap (λ u. skip_in u (length before)) (drop-append before (b' ' ∷ t))
    ∙ ap (λ u. skip_in u (suc (length before))) (sym (drop_past b' ' t before))

pub read_space :
    (before t : List ℕ)
    → (let s = before ++ (b' ' ∷ t) in
        read_astring s (length before) ≡ read_astring s (suc (length before)))
unfolding read_astring
read_space before t = let s : List ℕ = before ++ (b' ' ∷ t) in rw (skip_one before t) refl

module _ (before xs t : List ℕ) (x c : ℕ) (first : IsFirst x) (h : All IsAtomByte xs)
    (e : ends_atom c ≡ true) where
  text : List ℕ
  text = before ++ (x ∷ (xs ++ (c ∷ t)))

  atom_stop : atom_end (drop (length before) text) (length before) ≡ length before + suc (length xs)
  unfolding text
  atom_stop =
      ap (λ u. atom_end u (length before)) (drop-append before (x ∷ (xs ++ (c ∷ t))))
      ∙ atom_end-append (x ∷ xs) t c (length before) (first.atom, h) e

  -- An atom is read up to the byte that ends it.
  pub read_as_atom :
      read_astring (before ++ (x ∷ (xs ++ (c ∷ t)))) (length before)
      ≡ (some (x ∷ xs), length before + suc (length xs))
  unfolding read_astring read_atom text
  read_as_atom =
      rw
        (
          skip_at x (xs ++ (c ∷ t)) before first.white,
          inside x (xs ++ (c ∷ t)) before,
          get_or_at x (xs ++ (c ∷ t)) before 0,
          first.quote,
          first.brace,
          read_atom,
          atom_stop,
          longer (length before) (length xs),
          less (length before) (length xs),
        )
        (ap (λ u. (some u, length before + suc (length xs)))
          (ap (take (suc (length xs))) (drop-append before (x ∷ (xs ++ (c ∷ t))))
            ∙ take-append (x ∷ xs) (c ∷ t)))
    where
      longer : (i n : ℕ) → (i + suc n == i) ≡ false
      longer i n = ground arith

      less : (i n : ℕ) → i + suc n - i ≡ suc n
      less i n = omega arith
