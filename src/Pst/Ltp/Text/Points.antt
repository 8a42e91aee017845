-- ===== src/Pst/Ltp/Text/Points.antt =====
-- The bytes that `appendUtf8` of src/imap/imap_parse.cpp writes, as `utf8ToUtf16le` of src/pst/ltp.cpp reads them.
use imap2pst.Base.{
  ℕ, suc, ◌+◌, ◌*◌, ◌%◌, ◌^◌, ◌<◌, ◌≡◌, refl, ap, ap₂, ◌∙◌, arith, List, ◌∷◌, Bool, true, ◌&&◌,
  and_true, ◌==◌, ==→eq, bit_and, bit_or, u8, u32, ◌<<<◌,
}
use imap2pst.Base.Bits.{bit_or_fields, bit_and_mask, passes, passes-lt}
use imap2pst.Pst.Ltp.Text.{lead_byte, follow_bytes}

-- The lead bytes and the bytes that follow, by evaluation.
leads : ℕ → ℕ → ℕ → Bool
leads base extra x = ((lead_byte (base + x)).0 == x) && ((lead_byte (base + x)).1 == extra)

leads-eq : (base extra x : ℕ) → leads base extra x ≡ true → lead_byte (base + x) ≡ (x, extra)
unfolding leads
leads-eq base extra x e =
    let both = and_true _ _ e in ap₂ (λ a b. (a, b)) (==→eq _ _ both.0) (==→eq _ _ both.1)

pub lead_one : (x : ℕ) → x < 0x80 → lead_byte x ≡ (x, 0)
unfolding lead_byte
lead_one x h = ground arith

pub lead_two : (x : ℕ) → x < 32 → lead_byte (0xC0 + x) ≡ (x, 1)
unfolding passes leads lead_byte
lead_two x h = leads-eq 0xC0 1 x (passes-lt (leads 0xC0 1) 32 x h refl)

pub lead_three : (x : ℕ) → x < 16 → lead_byte (0xE0 + x) ≡ (x, 2)
unfolding passes leads lead_byte
lead_three x h = leads-eq 0xE0 2 x (passes-lt (leads 0xE0 2) 16 x h refl)

pub lead_four : (x : ℕ) → x < 8 → lead_byte (0xF0 + x) ≡ (x, 3)
unfolding passes leads lead_byte
lead_four x h = leads-eq 0xF0 3 x (passes-lt (leads 0xF0 3) 8 x h refl)

follows : ℕ → Bool
follows y = (bit_and (0x80 + y) 0xC0 == 0x80) && (bit_and (0x80 + y) 0x3F == y)

pub follow_one :
    (left extra cp y : ℕ) (cs : List ℕ)
    → y < 64
    → cp < 2 ^ 26
    → follow_bytes (suc left) extra cp ((0x80 + y) ∷ cs) ≡ follow_bytes left extra (cp * 64 + y) cs
unfolding follow_bytes follows passes
follow_one left extra cp y cs small low =
    let both =
      and_true (bit_and (0x80 + y) 0xC0 == 0x80) (bit_and (0x80 + y) 0x3F == y)
        (passes-lt follows 64 y small refl) in
    let joined : bit_or (u32 (cp <<< 6)) (bit_and (0x80 + y) 0x3F) ≡ cp * 64 + y =
      ap₂ bit_or (omega arith) (==→eq _ _ both.1) ∙ bit_or_fields 6 cp y (omega arith) in
    rw (follow_bytes, both.0, joined) refl

-- The bytes of a code point.
pub continues : (x : ℕ) → u8 (bit_or 0x80 (bit_and x 0x3F)) ≡ 0x80 + x % 64
continues x =
    ap (λ t. u8 (bit_or 0x80 t)) (bit_and_mask 6 x)
    ∙ ap u8 (bit_or_fields 7 1 (x % 64) (omega arith))
    ∙ omega arith

pub starts_two : (x : ℕ) → x < 32 → u8 (bit_or 0xC0 x) ≡ 0xC0 + x
starts_two x h = ap u8 (bit_or_fields 5 6 x h) ∙ omega arith

pub starts_three : (x : ℕ) → x < 16 → u8 (bit_or 0xE0 x) ≡ 0xE0 + x
starts_three x h = ap u8 (bit_or_fields 4 14 x h) ∙ omega arith

pub starts_four : (x : ℕ) → x < 8 → u8 (bit_or 0xF0 x) ≡ 0xF0 + x
starts_four x h = ap u8 (bit_or_fields 3 30 x h) ∙ omega arith
