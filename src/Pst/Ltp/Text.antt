-- ===== src/Pst/Ltp/Text.antt =====
-- `utf8ToUtf16le` of src/pst/ltp.cpp.
pub mod Points
pub mod Units
pub mod Rounds
use imap2pst.Base.{
  ℕ, zero, suc, ◌+◌, ◌-◌, List, [], ◌∷◌, Bool, ◌&&◌, ◌||◌, ltb, leb, ◌==◌, if◌then◌else◌, length,
  drop, bit_and, bit_or, u16, u32, ◌<<<◌, ◌>>>◌,
}
use imap2pst.Pst.Format.{put16}

-- What the lead byte says: the bits of the code point that it has, and the number of bytes that follow.
unfoldable pub lead_byte : ℕ → ℕ × ℕ
lead_byte c =
    if ltb c 0x80
    then (c, 0)
    else if bit_and c 0xE0 == 0xC0
    then (bit_and c 0x1F, 1)
    else if bit_and c 0xF0 == 0xE0
    then (bit_and c 0x0F, 2)
    else if bit_and c 0xF8 == 0xF0
    then (bit_and c 0x07, 3)
    else (0xFFFD, 0)

-- The loop over the bytes that follow: `left` of `extra` are left, `cp` has the bits so far.
unfoldable pub follow_bytes : ℕ → ℕ → ℕ → List ℕ → ℕ × ℕ
follow_bytes zero extra cp rest = (cp, extra)
follow_bytes (suc left) extra cp [] = (cp, extra)
follow_bytes (suc left) extra cp (c ∷ cs) =
    let longer = follow_bytes left extra (bit_or (u32 (cp <<< 6)) (bit_and c 0x3F)) cs in
    if bit_and c 0xC0 == 0x80 then longer else (0xFFFD, 0)

-- The code point that begins with the byte `c`, and how many bytes of `rest` belong to it.
unfoldable pub next_point : ℕ → List ℕ → ℕ × ℕ
next_point c rest =
    let (cp, extra) = lead_byte c in
    let (cp, extra) =
      if ltb (length rest) extra then (0xFFFD, 0) else follow_bytes extra extra cp rest in
    (if ltb 0x10FFFF cp || (leb 0xD800 cp && leb cp 0xDFFF) then 0xFFFD else cp, extra)

unfoldable pub put_point : List ℕ → ℕ → List ℕ
put_point out cp =
    if ltb cp 0x10000
    then put16 out (u16 cp)
    else (let cp = cp - 0x10000 in
        put16 (put16 out (u16 (0xD800 + (cp >>> 10)))) (u16 (0xDC00 + bit_and cp 0x3FF)))

-- The loop, over the bytes that are left; the fuel is their number.
unfoldable pub utf16_loop : ℕ → List ℕ → List ℕ → List ℕ
utf16_loop zero out s = out
utf16_loop (suc fuel) out [] = out
utf16_loop (suc fuel) out (c ∷ rest) =
    let point = next_point c rest in utf16_loop fuel (put_point out point.0) (drop point.1 rest)

-- `utf8ToUtf16le`
unfoldable pub utf8_to_utf16le : List ℕ → List ℕ
utf8_to_utf16le s = utf16_loop (length s) [] s
