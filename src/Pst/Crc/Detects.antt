-- ===== src/Pst/Crc/Detects.antt =====
-- What the checksum of src/pst/crc.cpp detects: no step of the division forgets anything of the register.
use imap2pst.Base.{ℕ, ◌<◌, List, All}

abbrev AreBytes : List ℕ → Type 0
AreBytes bs = All (λ b. b < 256) bs
