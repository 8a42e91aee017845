-- ===== src/Imap/Fetch/BodyRun.antt =====
-- The run of `parseFetchBodies` of src/imap/imap_parse.cpp over a line with a UID and a body.
use imap2pst.Base.{
  ℕ, suc, ◌+◌, ◌^◌, ◌<◌, ◌≡◌, refl, sym, ap, subst, ◌∙◌, arith, List, [], ◌∷◌, ◌++◌, append_assoc,
  some, true, length, length-append, u32,
}
use imap2pst.Base.Text.{ascii}
use imap2pst.Imap.UidSet.{to_string}
use imap2pst.Imap.Strings.{ends_atom, lower, read_astring}
use imap2pst.Imap.Strings.Literal.{
  literal, to_string-IsDigit, some_digit, strtoul-to_string_end, read_astring-literal,
}
use imap2pst.Imap.Strings.Atom.{IsFirst, read_space}
use imap2pst.Imap.Fetch.{FetchedBody, uid_of, body_item, fetch_items}
use imap2pst.Imap.Fetch.Items.{items_key}
use imap2pst.Imap.Fetch.BodyLine.{read_number_atom, uid_item, bytes_item}

shift : {A : Type 0} (b : List A) (x : A) (t : List A) → b ++ (x ∷ t) ≡ (b ++ (x ∷ [])) ++ t
shift b x t = sym (append_assoc b (x ∷ []) t)

IsFirst-u : IsFirst b'U'
unfolding ends_atom
IsFirst-u = record { atom = refl; quote = refl; brace = refl; white = refl }

IsFirst-b : IsFirst b'B'
unfolding ends_atom
IsFirst-b = record { atom = refl; quote = refl; brace = refl; white = refl }

module _ (b t : List ℕ) (s : FetchedBody) (line : List ℕ) where
  -- `UID` and a number behind it.
  pub uid_step :
      (fuel uid : ℕ)
      → uid < 2 ^ 32
      → line ≡ b ++ (ascii "UID" ++ (b' ' ∷ (to_string uid ++ (b' ' ∷ t))))
      → fetch_items body_item line (suc fuel) (length b) s
        ≡ fetch_items body_item line fuel
            (length b + 4 + length (to_string uid))
            (record s { uid = uid; have_uid = true })
  unfolding ends_atom
  uid_step fuel uid small e =
      let digits : List ℕ = to_string uid in
      let b3 : List ℕ = b ++ ascii "UID" in
      let b4 : List ℕ = b3 ++ (b' ' ∷ []) in
      let n3 : length b3 ≡ length b + 3 = length-append b (ascii "UID") in
      let n4 : length b4 ≡ length b + 4 = omega (arith, length-append b3 (b' ' ∷ []), n3) in
      let e3 : line ≡ b3 ++ (b' ' ∷ (digits ++ (b' ' ∷ t))) =
        e ∙ sym (append_assoc b (ascii "UID") (b' ' ∷ (digits ++ (b' ' ∷ t)))) in
      let e4 : line ≡ b4 ++ (digits ++ (b' ' ∷ t)) = e3 ∙ shift b3 b' ' (digits ++ (b' ' ∷ t)) in
      let value : read_astring line (length b + 3) ≡ (some digits, length b + 4 + length digits) =
        ap (read_astring line) (sym n3)
        ∙ subst (λ l. read_astring l (length b3) ≡ read_astring l (suc (length b3))) (sym e3)
            (read_space b3 (digits ++ (b' ' ∷ t)))
        ∙ ap (read_astring line) {y = length b4} (omega (arith, n3, n4))
        ∙ subst (λ l. read_astring l (length b4) ≡ (some digits, length b4 + length digits))
            (sym e4) (read_number_atom b4 digits t (to_string-IsDigit uid) (some_digit uid))
        ∙ ap (λ n. (some digits, n + length digits)) n4 in
      let number : uid_of digits ≡ uid = ap u32 (strtoul-to_string_end uid small) ∙ omega arith in
      subst
        (λ l.
          fetch_items body_item l (suc fuel) (length b) s
          ≡ fetch_items body_item l fuel (length b + 4 + length digits)
              (record s { uid = uid; have_uid = true }))
        (sym e)
        (items_key body_item fuel b (ascii "ID") (digits_tail uid) b'U' b' ' s _ _ IsFirst-u
          (refl, (refl, tt)) refl
          (subst
            (λ l.
              body_item l (lower (ascii "UID")) (length b + 3) s
              ≡ some (record s { uid = uid; have_uid = true }, length b + 4 + length digits))
            e
            (uid_item line (length b + 3) (length b + 4 + length digits) digits s value
              ∙ ap (λ n. some (record s { uid = n; have_uid = true }, length b + 4 + length digits))
                  number)))
    where
      digits_tail : ℕ → List ℕ
      digits_tail uid = to_string uid ++ (b' ' ∷ t)

  -- `BODY[]` and a literal behind it.
  pub bytes_step :
      (fuel : ℕ) (bytes : List ℕ)
      → length bytes < 2 ^ 32
      → length line < 2 ^ 64
      → line ≡ b ++ (ascii "BODY[]" ++ (b' ' ∷ (literal bytes ++ t)))
      → fetch_items body_item line (suc fuel) (length b) s
        ≡ fetch_items body_item line fuel
            (length b + 7 + length (literal bytes))
            (record s { rfc822 = bytes; have_body = true })
  unfolding ends_atom
  bytes_step fuel bytes small total e =
      let b3 : List ℕ = b ++ ascii "BODY[]" in
      let b4 : List ℕ = b3 ++ (b' ' ∷ []) in
      let n3 : length b3 ≡ length b + 6 = length-append b (ascii "BODY[]") in
      let n4 : length b4 ≡ length b + 7 = omega (arith, length-append b3 (b' ' ∷ []), n3) in
      let end : ℕ = length b + 7 + length (literal bytes) in
      let e3 : line ≡ b3 ++ (b' ' ∷ (literal bytes ++ t)) =
        e ∙ sym (append_assoc b (ascii "BODY[]") (b' ' ∷ (literal bytes ++ t))) in
      let e4 : line ≡ b4 ++ (literal bytes ++ t) = e3 ∙ shift b3 b' ' (literal bytes ++ t) in
      let value : read_astring line (length b + 6) ≡ (some bytes, end) =
        ap (read_astring line) (sym n3)
        ∙ subst (λ l. read_astring l (length b3) ≡ read_astring l (suc (length b3))) (sym e3)
            (read_space b3 (literal bytes ++ t))
        ∙ ap (read_astring line) {y = length b4} (omega (arith, n3, n4))
        ∙ subst (λ l. read_astring l (length b4) ≡ (some bytes, length b4 + length (literal bytes)))
            (sym e4)
            (read_astring-literal b4 bytes t small (subst (λ l. length l < 2 ^ 64) e4 total))
        ∙ ap (λ n. (some bytes, n + length (literal bytes))) n4 in
      subst
        (λ l.
          fetch_items body_item l (suc fuel) (length b) s
          ≡ fetch_items body_item l fuel end (record s { rfc822 = bytes; have_body = true }))
        (sym e)
        (items_key body_item fuel b (ascii "ODY[]") (literal bytes ++ t) b'B' b' ' s _ _ IsFirst-b
          (refl, (refl, (refl, (refl, (refl, tt))))) refl
          (subst
            (λ l.
              body_item l (lower (ascii "BODY[]")) (length b + 6) s
              ≡ some (record s { rfc822 = bytes; have_body = true }, end))
            e (bytes_item line (length b + 6) end bytes s value)))
