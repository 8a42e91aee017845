-- ===== src/Pst/Ndb/Blocks/Create.antt =====
-- The constructor of `NdbWriter` in src/pst/ndb.cpp.
use imap2pst.Base.{ℕ, ◌+◌, ◌*◌, ◌≡◌, ◌<◌, ◌^◌, ◌∷◌, Bool, refl, arith, false, true, [], replicate}
use imap2pst.Pst.Format.{first_data_pos}
use imap2pst.Pst.Ndb.State.{NdbWriter, ok}
use imap2pst.Pst.Ndb.Space.{ensure_amap_count}
use imap2pst.Pst.Ndb.Space.Growth.{ensure_amap_count-Grows}
use imap2pst.Pst.Ndb.Blocks.{create, stream_write}
use imap2pst.Pst.Ndb.Blocks.Emit.{block_step}
use imap2pst.Pst.Ndb.Blocks.Leaves.{Ready}

-- The writer that the constructor leaves where the file opens and the first write succeeds.
abbrev pub fresh : (ℕ → Bool) → NdbWriter
fresh fails =
    let m = ensure_amap_count 1 1 (record { maps = []; last = 0x4400 }) in
    record {
      out = record {
        writes = record { ib = 0; bytes = replicate first_data_pos 0 } ∷ [];
        good = true;
        fails = fails;
      };
      cursor = first_data_pos;
      next_bid_index = 1;
      finished = false;
      bbt = [];
      nbt = [];
      amaps = m.maps;
      last_amap_ib = m.last;
      file_end = first_data_pos;
      amap_free = 0;
      pmap_free = 0;
    }

create-fresh : (fails : ℕ → Bool) → fails 0 ≡ false → create true fails ≡ ok (fresh fails)
unfolding create stream_write
create-fresh fails h = rw h

pub fresh-Ready :
    (fails : ℕ → Bool) (n : ℕ)
    → ((i : ℕ) → fails i ≡ false)
    → first_data_pos + n * block_step < 2 ^ 60
    → Ready n (fresh fails)
fresh-Ready fails n h small =
    let grown = ensure_amap_count-Grows 1 1 (record { maps = []; last = 0x4400 }) tt in
    record {
      store = record {
        space = record {
          behind = omega arith;
          aligned = refl;
          small = omega arith;
          maps = grown.valid;
        };
        takes = record { good = refl; no_fault = h };
        old = tt;
      };
      few = omega arith;
      room = small;
    }

-- Where the file opens and the disk takes every write, the constructor gives a writer of a well-formed,
-- empty store, ready for any number of blocks that stays below the bounds of the positions.
pub create-Ready :
    (fails : ℕ → Bool) (n : ℕ)
    → ((i : ℕ) → fails i ≡ false)
    → first_data_pos + n * block_step < 2 ^ 60
    → (w : NdbWriter) × (create true fails ≡ ok w) × (w.bbt ≡ []) × Ready n w
create-Ready fails n h small =
    (fresh fails, create-fresh fails (h 0), refl, fresh-Ready fails n h small)
