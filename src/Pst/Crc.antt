-- ===== src/Pst/Crc.antt =====
-- src/pst/crc.cpp: the table-driven CRC-32 with no inversion of the seed or of the result.
pub mod Bitwise
pub mod Detects
use imap2pst.Base.{
  ℕ, zero, suc, ◌%◌, bit_and, bit_xor, List, [], ◌∷◌, ◌==◌, if◌then◌else◌, ◌>>>◌, get_or,
}

abbrev pub polynomial : ℕ
polynomial = 0xEDB88320

-- The body of `makeTable`'s inner loop.
unfoldable pub crc_step : ℕ → ℕ
crc_step c = if bit_and c 1 == 0 then c >>> 1 else bit_xor polynomial (c >>> 1)

-- The inner loop, `k` rounds of it.
unfoldable pub crc_rounds : ℕ → ℕ → ℕ
crc_rounds zero c = c
crc_rounds (suc k) c = crc_rounds k (crc_step c)

-- The outer loop of `makeTable`: `left` entries from the index `i` on.
unfoldable pub table_from : ℕ → ℕ → List ℕ
table_from zero i = []
table_from (suc left) i = crc_rounds 8 i ∷ table_from left (suc i)

-- `kTable`
unfoldable pub crc_table : List ℕ
crc_table = table_from 256 0

-- The loop body of `computeCrc`: `kTable[(crc ^ p[i]) & 0xFF] ^ (crc >> 8)`.
unfoldable pub crc_byte : ℕ → ℕ → ℕ
crc_byte crc b = bit_xor (get_or crc_table (bit_and (bit_xor crc b) 0xFF) 0) (crc >>> 8)

unfoldable pub compute_crc : ℕ → List ℕ → ℕ
compute_crc seed [] = seed
compute_crc seed (b ∷ bs) = compute_crc (crc_byte seed b) bs
