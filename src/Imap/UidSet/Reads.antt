-- ===== src/Imap/UidSet/Reads.antt =====
-- What `uidSet` of src/imap/imap_parse.cpp writes, a server reads back.
use imap2pst.Base.{
  ℕ, zero, suc, ◌^◌, ◌≤◌, ◌<◌, ◌≡◌, ◌≢◌, refl, sym, ap, ◌∙◌, arith, List, [], ◌∷◌, ◌++◌, false,
  Bool-cases, inl, inr, ltb, ltb→ge, ◌==◌, length, All, length-append,
}
use imap2pst.Imap.UidSet.{to_string, run, put_last, put_runs, uid_set}
use imap2pst.Imap.Strings.{is_digit}
use imap2pst.Imap.UidSet.Reader.{read_number, range, read_last, read_items, read_set}
use imap2pst.Imap.UidSet.Digits.{Stops, read-to_string, to_string-IsNumber}
use imap2pst.Imap.UidSet.Runs.{IsUid, IsRun, run-IsRun, more_runs, uid_set-more_runs}

more_runs-Stops : (fuel : ℕ) (us : List ℕ) → Stops (more_runs fuel us)
unfolding more_runs read_number is_digit
more_runs-Stops zero us n = refl
more_runs-Stops (suc fuel) [] n = refl
more_runs-Stops (suc fuel) (u ∷ us) n = refl

read_last-more_runs :
    (fuel first : ℕ) (us : List ℕ)
    → read_last first (more_runs fuel us) ≡ (first, more_runs fuel us)
unfolding more_runs read_last
read_last-more_runs zero first us = refl
read_last-more_runs (suc fuel) first [] = refl
read_last-more_runs (suc fuel) first (u ∷ us) = refl

colon-Stops : (text : List ℕ) → Stops (0x3A ∷ text)
unfolding read_number is_digit
colon-Stops text n = refl

read_last-colon : (first : ℕ) (text : List ℕ) → read_last first (0x3A ∷ text) ≡ read_number 0 text
unfolding read_last
read_last-colon first text = refl

-- The end of an item is read, whether it is a number or a range.
module _ (fuel u : ℕ) (us : List ℕ) (found : ℕ × List ℕ) (r : IsRun u us found) where
  abbrev behind : List ℕ
  behind = put_last us found.0 found.1 ++ more_runs fuel found.1

  item_end : Stops behind × (read_last u behind ≡ (found.0, more_runs fuel found.1))
  unfolding put_last
  item_end = elim (Bool-cases (ltb (length found.1) (length us))) [
    | inl several ↦ rw several (
      colon-Stops _,
      read_last-colon u (to_string found.0 ++ more_runs fuel found.1)
          ∙ read-to_string found.0 (more_runs fuel found.1) r.last_small
              (more_runs-Stops fuel found.1),
    )
    | inr one ↦ rw one (
      more_runs-Stops fuel found.1,
      read_last-more_runs fuel u found.1
          ∙ ap (λ l. (l, more_runs fuel found.1)) (sym (r.single (ltb→ge _ _ one))),
    )
  ]

-- The items that `read_items` finds once an item has begun.
abbrev item_then : ℕ → List ℕ → List ℕ
item_then fuel text =
    let number = read_number 0 text in
    let ends = read_last number.0 number.1 in range number.0 ends.0 ++ read_items fuel ends.1

read_item :
    (fuel left u : ℕ) (us : List ℕ) (found : ℕ × List ℕ)
    → u < 2 ^ 32
    → IsRun u us found
    → item_then fuel (to_string u ++ (put_last us found.0 found.1 ++ more_runs left found.1))
      ≡ range u found.0 ++ read_items fuel (more_runs left found.1)
read_item fuel left u us found small r =
    let ends = item_end left u us found r in
    ap (λ p. range p.0 (read_last p.0 p.1).0 ++ read_items fuel (read_last p.0 p.1).1)
      (read-to_string u (behind left u us found r) small ends.0)
    ∙ ap (λ p. range u p.0 ++ read_items fuel p.1) ends.1

read-more_runs :
    (left fuel : ℕ) (us : List ℕ)
    → All IsUid us
    → length us ≤ left
    → length (more_runs left us) ≤ fuel
    → read_items fuel (more_runs left us) ≡ us
unfolding more_runs read_items
read-more_runs zero zero [] h enough long = refl
read-more_runs zero (suc fuel) [] h enough long = refl
read-more_runs zero fuel (u ∷ us) h enough long = absurd (omega arith)
read-more_runs (suc left) zero [] h enough long = refl
read-more_runs (suc left) (suc fuel) [] h enough long = refl
read-more_runs (suc left) zero (u ∷ us) h enough long = absurd (omega arith)
read-more_runs (suc left) (suc fuel) (u ∷ us) h enough long =
    let found = run u us in
    let r = run-IsRun us u h.0.small h.1 in
    let p = put_last us found.0 found.1 in
    let rest = more_runs left found.1 in
    let sizes : length rest ≤ fuel =
      omega (arith, length-append (to_string u) (p ++ rest), length-append p rest) in
    read_item fuel left u us found h.0.small r
    ∙ ap (λ t. range u found.0 ++ t)
        (read-more_runs left fuel found.1 r.others (omega (arith, r.shorter)) sizes)
    ∙ sym r.parts

read_items-digit :
    (fuel c : ℕ) (cs : List ℕ) → c ≢ 0x2C → read_items (suc fuel) (c ∷ cs) ≡ item_then fuel (c ∷ cs)
unfolding read_items
read_items-digit fuel c cs h = rw (not_comma c h) refl
  where
    not_comma : (c : ℕ) → c ≢ 0x2C → (c == 0x2C) ≡ false
    not_comma c h = ground arith

-- For UIDs of 32 bits other than zero, in any order and repeated ones included, the sequence set that `uidSet` writes stands for the same
-- UIDs in the same order: no run loses an end or takes in a UID that is not there.
pub read_set-uid_set : (uids : List ℕ) → All IsUid uids → read_set (uid_set uids) ≡ uids
unfolding read_set uid_set put_runs read_items
read_set-uid_set [] h = refl
read_set-uid_set (u ∷ us) h =
    let found = run u us in
    let r = run-IsRun us u h.0.small h.1 in
    let number = to_string-IsNumber u in
    let text = number.more ++ (put_last us found.0 found.1 ++ more_runs (length us) found.1) in
    ap read_set (
      uid_set-more_runs u us
      ∙ ap (λ t. t ++ (put_last us found.0 found.1 ++ more_runs (length us) found.1)) number.whole)
    ∙ read_items-digit (length text) number.first text number.digit
    ∙ ap
        (λ t.
          item_then (length text)
            (t ++ (put_last us found.0 found.1 ++ more_runs (length us) found.1)))
        (sym number.whole)
    ∙ read_item (length text) (length us) u us found h.0.small r
    ∙ ap (λ t. range u found.0 ++ t)
        (read-more_runs (length us) (length text) found.1 r.others r.shorter (
          omega (
            arith,
            length-append number.more
                (put_last us found.0 found.1 ++ more_runs (length us) found.1),
            length-append (put_last us found.0 found.1) (more_runs (length us) found.1),
          )))
    ∙ sym r.parts
