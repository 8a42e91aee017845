-- ===== src/Imap/Utf7/Escape.antt =====
-- Names without a shift sequence under `decodeModifiedUtf7` of src/imap/imap_parse.cpp.
use imap2pst.Base.{
  ℕ, zero, suc, ◌≤◌, ◌≡◌, refl, sym, ap, ap₂, ◌∙◌, arith, List, [], ◌∷◌, Bool-cases, inl, inr, true,
  false, ◌==◌, ==→eq, length,
}
use imap2pst.Imap.Utf7.{utf7_loop, decode_modified_utf7}

-- How a mailbox name is written where every character stands for itself: only `&` needs a hyphen behind it.
unfoldable pub escape : List ℕ → List ℕ
escape [] = []
escape (c ∷ cs) = elim (c == b'&') [ true ↦ b'&' ∷ b'-' ∷ escape cs | false ↦ c ∷ escape cs ]

plain_byte :
    (fuel c : ℕ) (rest : List ℕ)
    → (c == b'&') ≡ false
    → utf7_loop (suc fuel) (c ∷ rest) ≡ c ∷ utf7_loop fuel rest
unfolding utf7_loop
plain_byte zero c [] e = rw e refl
plain_byte (suc fuel) c [] e = rw e refl
plain_byte zero c (d ∷ cs) e = rw (utf7_loop, e) refl
plain_byte (suc fuel) c (d ∷ cs) e = rw (utf7_loop, e) refl

escape_amp : (c : ℕ) (cs : List ℕ) → (c == b'&') ≡ true → escape (c ∷ cs) ≡ b'&' ∷ b'-' ∷ escape cs
unfolding escape
escape_amp c cs e = rw (escape, e) refl

escape_plain : (c : ℕ) (cs : List ℕ) → (c == b'&') ≡ false → escape (c ∷ cs) ≡ c ∷ escape cs
unfolding escape
escape_plain c cs e = rw (escape, e) refl

loop-escape :
    (fuel : ℕ) (name : List ℕ) → length (escape name) ≤ fuel → utf7_loop fuel (escape name) ≡ name
unfolding utf7_loop escape
loop-escape zero [] h = refl
loop-escape (suc fuel) [] h = refl
loop-escape zero (c ∷ cs) h = elim (Bool-cases (c == b'&')) [
  | inl amp ↦ absurd (omega (arith, h, ap length (escape_amp c cs amp)))
  | inr plain ↦ absurd (omega (arith, h, ap length (escape_plain c cs plain)))
]
loop-escape (suc fuel) (c ∷ cs) h = elim (Bool-cases (c == b'&')) [
  | inl amp ↦
      ap (utf7_loop (suc fuel)) (escape_amp c cs amp)
      ∙ ap₂ (λ a t. a ∷ t) (sym (==→eq c b'&' amp))
          (loop-escape fuel cs (omega (arith, h, ap length (escape_amp c cs amp))))
  | inr plain ↦
      ap (utf7_loop (suc fuel)) (escape_plain c cs plain)
      ∙ plain_byte fuel c (escape cs) plain
      ∙ ap (λ t. c ∷ t)
          (loop-escape fuel cs (omega (arith, h, ap length (escape_plain c cs plain))))
]

-- A mailbox name in which every `&` is written `&-` decodes to the name that was meant, whatever its bytes are.
pub decode_modified_utf7-escape : (name : List ℕ) → decode_modified_utf7 (escape name) ≡ name
unfolding decode_modified_utf7
decode_modified_utf7-escape name = loop-escape (length (escape name)) name (omega arith)
