-- ===== src/Imap/Fetch/WholeLine.antt =====
-- A whole FETCH line under `parseFetchBodies` of src/imap/imap_parse.cpp.
use imap2pst.Base.{
  ℕ, suc, ◌+◌, ◌-◌, ◌^◌, ◌≤◌, ◌<◌, ◌≡◌, refl, sym, ap, subst, ◌∙◌, arith, List, [], ◌∷◌, ◌++◌,
  append_assoc, some, true, length, length-append,
}
use imap2pst.Base.Text.{ascii}
use imap2pst.Imap.UidSet.{to_string}
use imap2pst.Imap.Strings.Literal.{literal}
use imap2pst.Imap.Lines.{Parsed, parsed}
use imap2pst.Imap.Fetch.{FetchedBody, no_body, body_item, fetch_items, fetch_start, body_line}
use imap2pst.Imap.Fetch.Items.{items_paren, items_space, items_end}
use imap2pst.Imap.Fetch.BodyLine.{line_start, fetch_line, start_of_items}
use imap2pst.Imap.Fetch.BodyRun.{uid_step, bytes_step}

abbrev pub body_of : ℕ → List ℕ → FetchedBody
body_of uid bytes = record { uid = uid; rfc822 = bytes; have_uid = true; have_body = true }

body_line_by :
    (line : List ℕ) (i : ℕ) {r : Parsed FetchedBody}
    → fetch_start line ≡ some i
    → fetch_items body_item line (length line) i no_body ≡ r
    → body_line line ≡ r
unfolding body_line
body_line_by line i e run = rw (body_line, e) run

starts :
    (seq uid : ℕ) (bytes : List ℕ)
    → fetch_start (fetch_line seq uid bytes) ≡ some (length (line_start seq))
unfolding fetch_line
starts seq uid bytes = start_of_items seq _

long_line : (seq uid : ℕ) (bytes : List ℕ) → 4 ≤ length (fetch_line seq uid bytes)
unfolding fetch_line line_start
long_line seq uid bytes = omega (
  arith,
  length-append (to_string seq ++ ascii " FETCH ") _,
  length-append (to_string seq) (ascii " FETCH "),
)

module _ (seq uid : ℕ) (bytes : List ℕ) (small_uid : uid < 2 ^ 32)
    (small : length bytes < 2 ^ 32) where
  items_run :
      (fuel : ℕ)
      → length (fetch_line seq uid bytes) < 2 ^ 64
      → fetch_items body_item
          (fetch_line seq uid bytes)
          (suc (suc (suc (suc fuel))))
          (length (line_start seq))
          no_body
        ≡ parsed (body_of uid bytes)
  unfolding fetch_line
  items_run fuel total =
      let run = fetch_items body_item in
      let line : List ℕ = fetch_line seq uid bytes in
      let p : List ℕ = line_start seq in
      let b1 : List ℕ = p ++ (b'(' ∷ []) in
      let b2 : List ℕ = b1 ++ (ascii "UID" ++ (b' ' ∷ to_string uid)) in
      let b3 : List ℕ = b2 ++ (b' ' ∷ []) in
      let b4 : List ℕ = b3 ++ (ascii "BODY[]" ++ (b' ' ∷ literal bytes)) in
      let t3 : List ℕ = ascii "BODY[]" ++ (b' ' ∷ (literal bytes ++ (b')' ∷ []))) in
      let t1 : List ℕ = ascii "UID" ++ (b' ' ∷ (to_string uid ++ (b' ' ∷ t3))) in
      let e1 : line ≡ b1 ++ t1 = sym (append_assoc p (b'(' ∷ []) t1) in
      let e2 : line ≡ b2 ++ (b' ' ∷ t3) =
        e1 ∙ sym (append_assoc b1 (ascii "UID" ++ (b' ' ∷ to_string uid)) (b' ' ∷ t3)) in
      let e3 : line ≡ b3 ++ t3 = e2 ∙ sym (append_assoc b2 (b' ' ∷ []) t3) in
      let e4 : line ≡ b4 ++ (b')' ∷ []) =
        e3 ∙ sym (append_assoc b3 (ascii "BODY[]" ++ (b' ' ∷ literal bytes)) (b')' ∷ [])) in
      let n1 : length b1 ≡ suc (length p) = length-append p (b'(' ∷ []) ∙ omega arith in
      let n2 : length b2 ≡ length b1 + 4 + length (to_string uid) =
        length-append b1 (ascii "UID" ++ (b' ' ∷ to_string uid)) ∙ omega arith in
      let n3 : length b3 ≡ suc (length b2) = length-append b2 (b' ' ∷ []) ∙ omega arith in
      let n4 : length b4 ≡ length b3 + 7 + length (literal bytes) =
        length-append b3 (ascii "BODY[]" ++ (b' ' ∷ literal bytes)) ∙ omega arith in
      let end : suc (length b4) ≡ length line =
        sym (ap length e4 ∙ length-append b4 (b')' ∷ []) ∙ omega arith) in
      let s1 : FetchedBody = record no_body { uid = uid; have_uid = true } in
      items_paren body_item (suc (suc (suc fuel))) b'(' p t1 no_body refl refl
      ∙ ap (λ i. run line (suc (suc (suc fuel))) i no_body) (sym n1)
      ∙ uid_step b1 t3 no_body line (suc (suc fuel)) uid small_uid e1
      ∙ ap (λ i. run line (suc (suc fuel)) i s1) (sym n2)
      ∙ subst
          (λ l. run l (suc (suc fuel)) (length b2) s1 ≡ run l (suc (suc fuel)) (suc (length b2)) s1)
          (sym e2) (items_space body_item (suc fuel) b2 t3 s1)
      ∙ ap (λ i. run line (suc (suc fuel)) i s1) (sym n3)
      ∙ bytes_step b3 (b')' ∷ []) s1 line (suc fuel) bytes small total e3
      ∙ ap (λ i. run line (suc fuel) i (body_of uid bytes)) (sym n4)
      ∙ subst
          (λ l.
            run l (suc fuel) (length b4) (body_of uid bytes)
            ≡ run l fuel (suc (length b4)) (body_of uid bytes))
          (sym e4) (items_paren body_item fuel b')' b4 [] (body_of uid bytes) refl refl)
      ∙ ap (λ i. run line fuel i (body_of uid bytes)) end
      ∙ items_end body_item fuel line (body_of uid bytes)

  -- A line that answers a FETCH with a UID below 2 ^ 32 and, as a literal, fewer than 2 ^ 32 bytes of a message gives
  -- that UID and those bytes, whatever the bytes are, if the line is shorter than 2 ^ 64 bytes.
  pub body_line-fetch_line :
      length (fetch_line seq uid bytes) < 2 ^ 64
      → body_line (fetch_line seq uid bytes) ≡ parsed (body_of uid bytes)
  body_line-fetch_line total =
      let line : List ℕ = fetch_line seq uid bytes in
      let k : ℕ = length line - 4 in
      let size : length line ≡ suc (suc (suc (suc k))) = omega (arith, long_line seq uid bytes) in
      body_line_by line (length (line_start seq)) (starts seq uid bytes) (
        ap (λ f. fetch_items body_item line f (length (line_start seq)) no_body) size
        ∙ items_run k total)
