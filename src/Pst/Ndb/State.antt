-- ===== src/Pst/Ndb/State.antt =====
-- The state of `NdbWriter` (src/pst/ndb.h), the file that it writes, and its error type. A member
-- function is a step from the writer to a result and the new writer, so that what a throwing call
-- has changed before it throws is kept, as it is in the source.
use imap2pst.Base.{
  ℕ, zero, suc, ◌+◌, ◌-◌, List, [], ◌∷◌, Bool, ◌&&◌, ltb, leb, if◌then◌else◌, length, get_or, ◌≡◌,
  ap,
}

-- The messages of the `PstError`s that ndb.cpp, heap.cpp, ltp.cpp and streaming_table.cpp throw.
-- `unfinished` stands for no error of the source: a loop that has not ended within its fuel.
pub data PstError : Type 0 where
  cannot_open cannot_preallocate short_write block_too_large data_tree_too_large
        data_tree_too_deep :
      PstError
  subnode_tree_too_deep btree_too_deep flush_failed unfinished : PstError
  heap_alloc_too_large heap_too_many_blocks patch_unknown_hid patch_changes_size : PstError
  bth_too_deep column_not_declared row_out_of_range finished_twice : PstError

pub data Result {ℓ} (A : Type ℓ) : Type ℓ where
  ok : A → Result A
  err : PstError → Result A

-- `NdbWriter::BbtEntry`, `NbtEntry`, `Bref` and `SubnodeEntry`
pub record BbtEntry : Type 0 where
  pub bid : ℕ
  pub ib : ℕ
  pub cb : ℕ

pub record NbtEntry : Type 0 where
  pub nid : ℕ
  pub block : ℕ
  pub sub : ℕ
  pub parent : ℕ

pub record Bref : Type 0 where
  pub bid : ℕ
  pub ib : ℕ

pub record SubnodeEntry : Type 0 where
  pub nid : ℕ
  pub block : ℕ
  pub sub : ℕ

-- One call of `writeAt` that the stream has taken.
pub record Write : Type 0 where
  pub ib : ℕ
  pub bytes : List ℕ

-- `out_`: the writes so far, the last one first, whether the stream is still good, and for each
-- number of writes whether the next one fails (the disk's part, unknown to the program).
pub record Stream : Type 0 where
  pub writes : List Write
  pub good : Bool
  pub fails : ℕ → Bool

pub record NdbWriter : Type 0 where
  pub out : Stream
  pub cursor : ℕ
  pub next_bid_index : ℕ
  pub finished : Bool
  pub bbt : List BbtEntry
  pub nbt : List NbtEntry
  pub amaps : List (List ℕ)
  pub last_amap_ib : ℕ
  pub file_end : ℕ
  pub amap_free : ℕ
  pub pmap_free : ℕ

abbrev pub M : Type 0 → Type 0
M A = NdbWriter → Result A × NdbWriter

infixl 5 ◌>>=◌ ◌>>◌
abbrev pub ◌>>=◌ : {A B : Type 0} → M A → (A → M B) → M B
◌>>=◌ m f w = let (r, w') = m w in elim r [ ok a ↦ f a w' | err e ↦ (err e, w') ]

abbrev pub ◌>>◌ : {A B : Type 0} → M A → M B → M B
m >> k = m >>= λ _. k

abbrev pub return : {A : Type 0} → A → M A
return a w = (ok a, w)

abbrev pub throw : {A : Type 0} → PstError → M A
throw e w = (err e, w)

-- The byte of the file at a position: the last write that covers it, and zero where none does.
abbrev pub byte_at : List Write → ℕ → ℕ
byte_at [] pos = 0
byte_at (w ∷ ws) pos =
    if leb w.ib pos && ltb pos (w.ib + length w.bytes)
    then get_or w.bytes (pos - w.ib) 0
    else byte_at ws pos

-- `n` bytes of the file from a position on
abbrev pub read : List Write → ℕ → ℕ → List ℕ
read ws pos zero = []
read ws pos (suc n) = byte_at ws pos ∷ read ws (suc pos) n

-- A step that succeeds hands its result on, and one that throws ends the chain.
module _ {A B : Type 0} (m : M A) (f : A → M B) {w w' : NdbWriter} where
  pub bind_ok : {a : A} → m w ≡ (ok a, w') → (m >>= f) w ≡ f a w'
  bind_ok e =
      ap (λ p. elim p.0 as (λ _. Result B × NdbWriter) [ ok a ↦ f a p.1 | err x ↦ (err x, p.1) ]) e

  pub bind_err : {x : PstError} → m w ≡ (err x, w') → (m >>= f) w ≡ (err x, w')
  bind_err e =
      ap (λ p. elim p.0 as (λ _. Result B × NdbWriter) [ ok a ↦ f a p.1 | err x ↦ (err x, p.1) ]) e
