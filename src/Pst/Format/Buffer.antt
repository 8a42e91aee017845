-- ===== src/Pst/Format/Buffer.antt =====
-- Buffers of bytes under the pokes of pst_format.h: their size, and that bytes stay bytes.
use imap2pst.Base.{
  ℕ, suc, ◌<◌, arith, List, [], ◌∷◌, u8, ◌>>>◌, length, set, copy_at, All, All-set, length-set,
  length-copy_at, ◌≡◌, ◌∙◌,
}
use imap2pst.Pst.Format.{le_bytes, poke16, poke32, poke64}
use imap2pst.Pst.Format.Endian.{
  IsByte, le_bytes-IsByte, length-poke16, length-poke32, length-poke64,
}

pub copy_at-IsByte :
    (p : List ℕ) (o : ℕ) (src : List ℕ)
    → All IsByte p
    → All IsByte src
    → All IsByte (copy_at p o src)
copy_at-IsByte p o [] h k = h
copy_at-IsByte p o (x ∷ xs) h k =
    copy_at-IsByte (set p o x) (suc o) xs (All-set IsByte p o x h k.0) k.1

-- A buffer of `n` bytes.
pub record IsBuffer (n : ℕ) (p : List ℕ) : Type 0 where
  pub size : length p ≡ n
  pub bytes : All IsByte p

module _ (n : ℕ) (p : List ℕ) (o v : ℕ) (h : IsBuffer n p) where
  pub poke16-IsBuffer : IsBuffer n (poke16 p o v)
  unfolding poke16
  poke16-IsBuffer = record {
    size = length-poke16 p o v ∙ h.size;
    bytes = copy_at-IsByte p o (u8 v ∷ u8 (v >>> 8) ∷ []) h.bytes (omega arith, (omega arith, tt));
  }

  pub poke32-IsBuffer : IsBuffer n (poke32 p o v)
  unfolding poke32
  poke32-IsBuffer = record {
    size = length-poke32 p o v ∙ h.size;
    bytes = copy_at-IsByte p o (le_bytes 4 0 v) h.bytes (le_bytes-IsByte 4 0 v);
  }

  pub poke64-IsBuffer : IsBuffer n (poke64 p o v)
  unfolding poke64
  poke64-IsBuffer = record {
    size = length-poke64 p o v ∙ h.size;
    bytes = copy_at-IsByte p o (le_bytes 8 0 v) h.bytes (le_bytes-IsByte 8 0 v);
  }

pub set-IsBuffer : (n : ℕ) (p : List ℕ) (i b : ℕ) → IsBuffer n p → b < 256 → IsBuffer n (set p i b)
set-IsBuffer n p i b h small = record {
  size = length-set p i b ∙ h.size;
  bytes = All-set IsByte p i b h.bytes small;
}

pub copy_at-IsBuffer :
    (n : ℕ) (p : List ℕ) (o : ℕ) (src : List ℕ)
    → IsBuffer n p
    → All IsByte src
    → IsBuffer n (copy_at p o src)
copy_at-IsBuffer n p o src h k = record {
  size = length-copy_at p o src ∙ h.size;
  bytes = copy_at-IsByte p o src h.bytes k;
}
