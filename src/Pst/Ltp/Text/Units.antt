-- ===== src/Pst/Ltp/Text/Units.antt =====
-- The code units of UTF-16, by division, and those that `utf8ToUtf16le` of src/pst/ltp.cpp writes by shifts and masks.
use imap2pst.Base.{
  ℕ, ◌+◌, ◌-◌, ◌/◌, ◌%◌, ◌<◌, ◌≡◌, ap, ap₂, ◌∙◌, arith, List, [], ◌∷◌, ◌++◌, append_assoc,
  Bool-cases, inl, inr, ltb, ltb→lt, if◌then◌else◌, u16,
}
use imap2pst.Base.Bits.{bit_and_mask}
use imap2pst.Pst.Format.{put16}
use imap2pst.Pst.Ltp.Text.{put_point}

-- A code unit, low byte first.
unfoldable pub unit_bytes : ℕ → List ℕ
unit_bytes unit = (unit % 256) ∷ (unit / 256) ∷ []

-- A value above 0xFFFF is what remains of it in base 0x400: the high surrogate has the first digit, the low one the
-- second.
unfoldable pub utf16_bytes : ℕ → List ℕ
utf16_bytes cp =
    if ltb cp 0x10000
    then unit_bytes cp
    else unit_bytes (0xD800 + (cp - 0x10000) / 0x400)
      ++ unit_bytes (0xDC00 + (cp - 0x10000) % 0x400)

unfoldable pub utf16_text : List ℕ → List ℕ
utf16_text [] = []
utf16_text (cp ∷ cps) = utf16_bytes cp ++ utf16_text cps

put16-unit_bytes :
    (out : List ℕ) (unit : ℕ) → unit < 0x10000 → put16 out (u16 unit) ≡ out ++ unit_bytes unit
unfolding put16 unit_bytes
put16-unit_bytes out unit h =
    ap (λ t. out ++ t) (ap₂ (λ a b. a ∷ b ∷ []) (omega arith) (omega arith))

pub put_point-utf16_bytes :
    (out : List ℕ) (cp : ℕ) → cp < 0x110000 → put_point out cp ≡ out ++ utf16_bytes cp
unfolding put_point utf16_bytes
put_point-utf16_bytes out cp h = elim (Bool-cases (ltb cp 0x10000)) [
  | inl e ↦ rw (put_point, utf16_bytes, e) (put16-unit_bytes out cp (ltb→lt _ _ e))
  | inr e ↦
      let high : ℕ = 0xD800 + (cp - 0x10000) / 0x400 in
      let low : ℕ = 0xDC00 + (cp - 0x10000) % 0x400 in
      let first : put16 out (u16 high) ≡ out ++ unit_bytes high =
        put16-unit_bytes out high (omega arith) in
      rw (put_point, utf16_bytes, e)
        (ap₂ (λ t u. put16 t (u16 (0xDC00 + u))) first (bit_and_mask 10 (cp - 0x10000))
          ∙ put16-unit_bytes (out ++ unit_bytes high) low (omega arith)
          ∙ append_assoc out (unit_bytes high) (unit_bytes low))
]
