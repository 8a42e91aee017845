-- ===== src/Pst/Ndb/Subnodes.antt =====
-- Subnode trees: `writeSubnodes` of src/pst/ndb.cpp.
use imap2pst.Base.{
  ℕ, zero, suc, ◌-◌, ◌/◌, List, [], ◌∷◌, true, ltb, leb, if◌then◌else◌, length, take, drop, u16,
}
use imap2pst.Pst.Format.{max_block_data, put8, put16, put32, put64}
use imap2pst.Pst.Ndb.State.{SubnodeEntry, M, subnode_tree_too_deep, ◌>>=◌, return, throw}
use imap2pst.Pst.Ndb.Blocks.{emit_block}

abbrev pub slblock_fanout : ℕ
slblock_fanout = (max_block_data - 8) / 24

abbrev pub siblock_fanout : ℕ
siblock_fanout = (max_block_data - 8) / 16

-- `std::sort` of `writeSubnodes` by the NID; entries of one NID may come in any order there, and
-- keep theirs here.
unfoldable pub insert_subnode : SubnodeEntry → List SubnodeEntry → List SubnodeEntry
insert_subnode e [] = e ∷ []
insert_subnode e (f ∷ fs) = if leb e.nid f.nid then e ∷ f ∷ fs else f ∷ insert_subnode e fs

unfoldable pub sort_subnodes : List SubnodeEntry → List SubnodeEntry
sort_subnodes [] = []
sort_subnodes (e ∷ es) = insert_subnode e (sort_subnodes es)

unfoldable pub put_slentries : List ℕ → List SubnodeEntry → List ℕ
put_slentries buf [] = buf
put_slentries buf (e ∷ es) = put_slentries (put64 (put64 (put64 buf e.nid) e.block) e.sub) es

-- `emit_sl` of `writeSubnodes`
unfoldable pub emit_sl : List SubnodeEntry → M ℕ
emit_sl es =
    emit_block (put_slentries (put32 (put16 (put8 (put8 [] 0x02) 0x00) (u16 (length es))) 0) es)
      true

-- The entries of an SIBLOCK: the first NID of each SLBLOCK, and its BID.
unfoldable pub put_sientries : List ℕ → List (ℕ × ℕ) → List ℕ
put_sientries buf [] = buf
put_sientries buf ((key, bid) ∷ cs) = put_sientries (put64 (put64 buf key) bid) cs

unfoldable pub emit_sls : ℕ → List SubnodeEntry → M (List (ℕ × ℕ))
emit_sls zero es = return []
emit_sls (suc fuel) [] = return []
emit_sls (suc fuel) (e ∷ more) =
    let es = e ∷ more in
    do
      bid ← emit_sl (take slblock_fanout es)
      children ← emit_sls fuel (drop slblock_fanout es)
      return ((e.nid, bid) ∷ children)

-- `writeSubnodes`
unfoldable pub write_subnodes : List SubnodeEntry → M ℕ
write_subnodes [] = return 0
write_subnodes (e ∷ more) =
    let es = sort_subnodes (e ∷ more) in
    if leb (length es) slblock_fanout then emit_sl es else (do
      children ← emit_sls (length es) es
      (if ltb siblock_fanout (length children)
          then throw subnode_tree_too_deep
          else emit_block
              (put_sientries (put32 (put16 (put8 (put8 [] 0x02) 0x01) (u16 (length children))) 0)
                children)
              true))
