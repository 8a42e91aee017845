-- ===== src/Pst/Ltp/Subs.antt =====
-- `SubnodeAllocator` of src/pst/ltp.h and ltp.cpp.
use imap2pst.Base.{ℕ, ◌+◌, List, [], ◌∷◌, ◌++◌, u32}
use imap2pst.Pst.Format.{make_nid}
use imap2pst.Pst.Ndb.State.{NdbWriter, SubnodeEntry, ok}
use imap2pst.Pst.Ndb.Blocks.{write_data}
use imap2pst.Pst.Run.{Run, ◌>>=◌, on_part}

abbrev pub nid_type_ltp : ℕ
nid_type_ltp = 0x1F

-- `ndb` is the writer that the source refers to.
pub record SubnodeAllocator : Type 0 where
  pub ndb : NdbWriter
  pub entries : List SubnodeEntry
  pub next_index : ℕ

abbrev pub new_subs : NdbWriter → SubnodeAllocator
new_subs ndb = record { ndb = ndb; entries = []; next_index = 1 }

-- `add`
unfoldable pub add_subnode : ℕ → ℕ → ℕ → Run SubnodeAllocator (Unit {0})
add_subnode nid block sub s = (
  ok tt,
  record s { entries = s.entries ++ (record { nid = nid; block = block; sub = sub } ∷ []) },
)

-- `adopt`
unfoldable pub adopt : ℕ → Run SubnodeAllocator ℕ
adopt block s =
    let nid = make_nid nid_type_ltp s.next_index in
    (
      ok nid,
      record s {
        next_index = u32 (s.next_index + 1);
        entries = s.entries ++ (record { nid = nid; block = block; sub = 0 } ∷ []);
      },
    )

-- A step of the writer.
abbrev pub on_ndb : {A : Type 0} → Run NdbWriter A → Run SubnodeAllocator A
on_ndb m = on_part (λ s. s.ndb) (λ w s. record s { ndb = w }) m

-- `spill`
unfoldable pub spill : List ℕ → Run SubnodeAllocator ℕ
spill bytes = on_ndb (write_data bytes) >>= adopt
