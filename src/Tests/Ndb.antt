-- ===== src/Tests/Ndb.antt =====
-- Runs of src/pst/ndb.cpp on a disk that takes every write.
use imap2pst.Base.{
  take, replicate, All-replicate, ℕ, ◌≡◌, ◌%◌, refl, arith, List, [], ◌∷◌, Bool, true, false, All,
  some,
}
use imap2pst.Pst.Format.{page_size, block_align, align_up, compute_sig}
use imap2pst.Pst.Ndb.State.{NdbWriter, NbtEntry, ok}
use imap2pst.Base.{◌<◌, ◌≤◌, get_or}
use imap2pst.Pst.Format.{nid_index, nid_type}
use imap2pst.Pst.Ndb.Finish.{next_nids, first_user_nid_index}
use imap2pst.Pst.Ndb.Finish.NextNids.{next_nids_lem}
use imap2pst.Pst.Ndb.Space.{allocate, allocate_page, find_space, allocate_fuel, mark_allocated}
use imap2pst.Pst.Ndb.Space.Placement.{IsPlaced, find_space-IsPlaced}
use imap2pst.Pst.Ndb.Space.Growth.{is_marked, mark_allocated_marks}
use imap2pst.Pst.Ndb.Space.Allocate.{IsAllocated, allocate_lem, allocate_page_lem}
use imap2pst.Pst.Ndb.Blocks.{create, emit_block, write_data, block_bytes}
use imap2pst.Pst.Ndb.Blocks.Store.{IsByte}
use imap2pst.Pst.Ndb.Blocks.Trailer.{IsBlock, block_bytes-IsBlock}
use imap2pst.Pst.Ndb.Blocks.Emit.{IsStored, emit_block-IsStored}
use imap2pst.Pst.Ndb.Blocks.Leaves.{Ready}
use imap2pst.Pst.Ndb.Blocks.Data.{WroteTree}
use imap2pst.Pst.Ndb.Blocks.DataTree.{write_data-WroteTree}
use imap2pst.Pst.Format.Buffer.{IsBuffer}
use imap2pst.Pst.Ndb.Blocks.Trailer.{compute_sig-lt}
use imap2pst.Pst.Ndb.Pages.{page_bytes}
use imap2pst.Pst.Ndb.Pages.Page.{IsPage, page_bytes-IsPage}
use imap2pst.Pst.Ndb.Finish.{header_bytes}
use imap2pst.Pst.Ndb.Finish.Header.{IsHeader}
use imap2pst.Pst.Ndb.Finish.Draft.{header_bytes-IsHeader}
use imap2pst.Pst.Ndb.Blocks.Create.{fresh, fresh-Ready, create-Ready}

abbrev reliable : ℕ → Bool
reliable n = false

reliable_lem : (n : ℕ) → reliable n ≡ false
reliable_lem n = refl

abbrev writer : NdbWriter
writer = fresh reliable

writer-Ready : Ready 1000 writer
writer-Ready = fresh-Ready reliable 1000 reliable_lem (omega arith)

abbrev three_bytes : List ℕ
three_bytes = 1 ∷ 2 ∷ 255 ∷ []

three_bytes-IsByte : All IsByte three_bytes
three_bytes-IsByte = (omega arith, (omega arith, (omega arith, tt)))

create-reliable : (w : NdbWriter) × (create true reliable ≡ ok w) × (w.bbt ≡ []) × Ready 1000 w
create-reliable = create-Ready reliable 1000 reliable_lem (omega arith)

write_three :
    (bid : ℕ) × (w' : NdbWriter) × (write_data three_bytes writer ≡ (ok bid, w'))
    × WroteTree writer three_bytes 999 bid w'
write_three =
    write_data-WroteTree three_bytes 999 writer three_bytes-IsByte (omega arith) three_more
  where
    three_more : Ready 1002 writer
    three_more = fresh-Ready reliable 1002 reliable_lem (omega arith)

emit_three :
    (bid : ℕ) × (w' : NdbWriter) × (emit_block three_bytes true writer ≡ (ok bid, w'))
    × IsStored writer three_bytes true bid w'
emit_three =
    emit_block-IsStored three_bytes true writer writer-Ready.store three_bytes-IsByte (omega arith)
      (omega arith) (omega arith)

allocate_100 :
    (ib : ℕ) × (w' : NdbWriter) × (allocate 100 writer ≡ (ok ib, w'))
    × IsAllocated writer (align_up 100 block_align) ib w'
allocate_100 = allocate_lem 100 writer writer-Ready.store.space (omega arith)

allocate_one_page :
    (ib : ℕ) × (w' : NdbWriter) × (allocate_page writer ≡ (ok ib, w'))
    × (ib % page_size ≡ 0)
    × IsAllocated (record writer { cursor = align_up writer.cursor page_size }) page_size ib w'
allocate_one_page = allocate_page_lem writer writer-Ready.store.space (omega arith)

-- Room is found behind the second AMap page, which the range would meet.
place_at_map :
    (ib : ℕ) × (find_space allocate_fuel 0x42200 8192 ≡ some ib) × IsPlaced 0x42200 8192 ib
place_at_map = find_space-IsPlaced 0x42200 8192 (omega arith) (omega arith) (omega arith)

mark_second_span :
    is_marked (mark_allocated 0x42600 128 (record { maps = []; last = 0 })).maps 0x42640 ≡ true
mark_second_span =
    mark_allocated_marks 0x42600 128 0x42640 (record { maps = []; last = 0 }) tt (omega arith)
      (omega arith) (omega arith) (omega arith) (omega arith) (omega arith)

IsBlock-three_bytes : IsBlock three_bytes 64 0x4600 4 (block_bytes three_bytes 64 0x4600 4)
IsBlock-three_bytes =
    block_bytes-IsBlock three_bytes 64 0x4600 4 three_bytes-IsByte (omega arith) (omega arith)
      (omega arith)

leaf-IsPage :
    IsPage
      (take 496 (replicate page_size 0))
      0x80
      (compute_sig 0x4600 4)
      4
      (page_bytes (replicate page_size 0) 0x80 (compute_sig 0x4600 4) 4)
leaf-IsPage =
    page_bytes-IsPage (replicate page_size 0) 0x80 (compute_sig 0x4600 4) 4 zeros
      (compute_sig-lt 0x4600 4) (omega arith)
  where
    zeros : IsBuffer 512 (replicate page_size 0)
    zeros = record { size = refl; bytes = All-replicate IsByte 512 0 (omega arith) }

first-IsHeader :
    IsHeader
      (header_bytes writer (record { bid = 4; ib = 0x4800 }) (record { bid = 8; ib = 0x4A00 }))
first-IsHeader =
    header_bytes-IsHeader writer (record { bid = 4; ib = 0x4800 }) (record { bid = 8; ib = 0x4A00 })

abbrev two_nodes : List NbtEntry
two_nodes =
    record { nid = 0x21; block = 4; sub = 0; parent = 0 }
    ∷ record { nid = 0x8082; block = 8; sub = 0; parent = 0x122 }
    ∷ []

next_two_nodes :
    (All
      (λ n.
        nid_index n.nid
        < get_or (next_nids (replicate 32 first_user_nid_index) two_nodes) (nid_type n.nid) 0)
      two_nodes)
    × ((t : ℕ)
        → get_or (replicate 32 first_user_nid_index) t 0
          ≤ get_or (next_nids (replicate 32 first_user_nid_index) two_nodes) t 0)
next_two_nodes = next_nids_lem two_nodes (omega arith, (omega arith, tt))
