-- ===== src/Imap/Strings/Cursor.antt =====
-- The branches of `readAstring` of src/imap/imap_parse.cpp, by the byte at the cursor.
use imap2pst.Base.{
  ℕ, suc, ◌≡◌, refl, ap, ◌∙◌, arith, List, [], ◌∷◌, ◌++◌, some, false, ◌==◌, ◌||◌, leb, length,
  get_or, drop, length-append, drop-append,
}
use imap2pst.Imap.Strings.{skip_in, quoted_in, read_literal, read_astring}

module _ (c : ℕ) (t : List ℕ) where
  pub get_or_at : (before : List ℕ) (d : ℕ) → get_or (before ++ (c ∷ t)) (length before) d ≡ c
  get_or_at [] d = refl
  get_or_at (b ∷ bs) d = get_or_at bs d

  pub drop_past : (before : List ℕ) → drop (suc (length before)) (before ++ (c ∷ t)) ≡ t
  drop_past [] = refl
  drop_past (b ∷ bs) = drop_past bs

  pub inside : (before : List ℕ) → leb (length (before ++ (c ∷ t))) (length before) ≡ false
  inside before = ground (arith, length-append before (c ∷ t))

  stays : (i : ℕ) → (c == b' ' || c == 9) ≡ false → skip_in (c ∷ t) i ≡ i
  unfolding skip_in
  stays i e = rw (skip_in, e) refl

  pub skip_at :
      (before : List ℕ)
      → (c == b' ' || c == 9) ≡ false
      → skip_in (drop (length before) (before ++ (c ∷ t))) (length before) ≡ length before
  skip_at before e =
      ap (λ u. skip_in u (length before)) (drop-append before (c ∷ t)) ∙ stays (length before) e

pub read_as_quoted :
    (before t : List ℕ)
    → read_astring (before ++ (b'"' ∷ t)) (length before)
      ≡ (let q = quoted_in t (suc (length before)) in (some q.0, q.1))
unfolding read_astring
read_as_quoted before t =
    rw
      (
        skip_at b'"' t before refl,
        inside b'"' t before,
        get_or_at b'"' t before 0,
        drop_past b'"' t before,
      )
      refl

pub read_as_literal :
    (before t : List ℕ)
    → read_astring (before ++ (b'{' ∷ t)) (length before)
      ≡ read_literal (before ++ (b'{' ∷ t)) (length before)
unfolding read_astring
read_as_literal before t =
    rw (skip_at b'{' t before refl, inside b'{' t before, get_or_at b'{' t before 0) refl
