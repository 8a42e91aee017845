-- ===== src/Pst/Crc/Bitwise.antt =====
-- The table of crc.cpp replaces eight rounds of the bitwise division, and the register stays
-- in 32 bits.
use imap2pst.Base.{
  ℕ, zero, suc, ◌+◌, ◌*◌, ◌/◌, ◌%◌, ◌^◌, ◌<◌, ◌≡◌, refl, sym, ap, ◌∙◌, arith, bit_and, bit_xor,
  List, [], ◌∷◌, get_or, All,
}
use native.Mathlib.Nat.{pow-suc}
use imap2pst.Base.Bits.{
  bit_xor_assoc, bit_xor_even, bit_and_mask, bit_xor_fields, bit_xor_shift, bit_xor-zero,
  bit_xor-lt,
}
use imap2pst.Pst.Crc.{
  polynomial, crc_step, crc_rounds, table_from, crc_table, crc_byte, compute_crc,
}

-- One round leaves what stands above the lowest digit to the shift.
crc_step-xor : (c y : ℕ) → crc_step (bit_xor c (y * 2)) ≡ bit_xor (crc_step c) y
unfolding crc_step
crc_step-xor c y = ground (
  arith,
  bit_xor_even c y,
  bit_and_mask 1 c,
  bit_and_mask 1 (bit_xor c (y * 2)),
  bit_xor_assoc polynomial (c / 2) y,
)

crc_rounds-xor : (k c y : ℕ) → crc_rounds k (bit_xor c (y * 2 ^ k)) ≡ bit_xor (crc_rounds k c) y
unfolding crc_rounds
crc_rounds-xor zero c y = ap (bit_xor c) (omega arith)
crc_rounds-xor (suc k) c y =
    let doubled : y * 2 ^ suc k ≡ y * 2 ^ k * 2 =
      omega (arith, ap (λ (t : ℕ). y * t) (pow-suc 2 k)) in
    ap (λ t. crc_rounds k (crc_step (bit_xor c t))) doubled
    ∙ ap (crc_rounds k) (crc_step-xor c (y * 2 ^ k))
    ∙ crc_rounds-xor k (crc_step c) y

table_from-get : (left i j d : ℕ) → j < left → get_or (table_from left i) j d ≡ crc_rounds 8 (i + j)
unfolding table_from
table_from-get zero i j d h = elim h [ ]
table_from-get (suc left) i zero d h = ap (crc_rounds 8) (omega arith)
table_from-get (suc left) i (suc j) d h =
    table_from-get left (suc i) j d (omega arith) ∙ ap (crc_rounds 8) (omega arith)

xor_low : (c b : ℕ) → b < 256 → bit_xor c b ≡ bit_xor (bit_and (bit_xor c b) 0xFF) (c / 256 * 2 ^ 8)
xor_low c b h = ground (
  arith,
  bit_and_mask 8 (bit_xor c b),
  bit_xor_fields 8 (c / 256) (bit_xor c b % 256),
  bit_xor_shift 8 c b,
  bit_xor-zero (c / 256),
)

-- The byte step of the table is eight rounds of the division.
crc_byte-eq-rounds : (c b : ℕ) → b < 256 → crc_byte c b ≡ crc_rounds 8 (bit_xor c b)
unfolding crc_byte crc_table
crc_byte-eq-rounds c b h =
    let low = bit_and (bit_xor c b) 0xFF in
    let looked_up : get_or (table_from 256 0) low 0 ≡ crc_rounds 8 low =
      table_from-get 256 0 low 0 (omega (arith, bit_and_mask 8 (bit_xor c b)))
      ∙ ap (crc_rounds 8) (omega arith) in
    ap (λ t. bit_xor t (c / 256)) looked_up
    ∙ sym (crc_rounds-xor 8 low (c / 256))
    ∙ ap (crc_rounds 8) (sym (xor_low c b h))

-- The division as the standard writes it: the byte is added to the register, then eight bits
-- are shifted out.
unfoldable pub divide : ℕ → List ℕ → ℕ
divide seed [] = seed
divide seed (b ∷ bs) = divide (crc_rounds 8 (bit_xor seed b)) bs

-- For every seed and all bytes the table-driven `computeCrc` is the bitwise division.
pub compute_crc-eq-divide :
    (seed : ℕ) (bs : List ℕ) → All (λ b. b < 256) bs → compute_crc seed bs ≡ divide seed bs
unfolding compute_crc divide
compute_crc-eq-divide seed [] h = refl
compute_crc-eq-divide seed (b ∷ bs) h =
    ap (λ c. compute_crc c bs) (crc_byte-eq-rounds seed b h.0)
    ∙ compute_crc-eq-divide (crc_rounds 8 (bit_xor seed b)) bs h.1

crc_step-lt : (c : ℕ) → c < 2 ^ 32 → crc_step c < 2 ^ 32
unfolding crc_step
crc_step-lt c h = ground (arith, bit_xor-lt 32 polynomial (c / 2))

pub crc_rounds-lt : (k c : ℕ) → c < 2 ^ 32 → crc_rounds k c < 2 ^ 32
unfolding crc_rounds
crc_rounds-lt zero c h = h
crc_rounds-lt (suc k) c h = crc_rounds-lt k (crc_step c) (crc_step-lt c h)

-- The register stays within 32 bits.
pub compute_crc-lt :
    (seed : ℕ) (bs : List ℕ) → All (λ b. b < 256) bs → seed < 2 ^ 32 → compute_crc seed bs < 2 ^ 32
unfolding compute_crc
compute_crc-lt seed [] h s = s
compute_crc-lt seed (b ∷ bs) h s = compute_crc-lt (crc_byte seed b) bs h.1 (
    rw (crc_byte-eq-rounds seed b h.0)
      (crc_rounds-lt 8 (bit_xor seed b) (bit_xor-lt 32 seed b s (omega (arith, h.0)))))
