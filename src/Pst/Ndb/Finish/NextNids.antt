-- ===== src/Pst/Ndb/Finish/NextNids.antt =====
-- `rgnid` of the header that `writeHeader` of src/pst/ndb.cpp writes: the next free index of each node type.
use imap2pst.Base.{
  ℕ, ◌+◌, ◌^◌, ◌≤◌, ◌<◌, ◌≡◌, refl, subst, ◌∙◌, arith, List, [], ◌∷◌, Bool-cases, inl, inr, ltb,
  ltb→lt, ltb→ge, ◌==◌, ==→eq, length, replicate, set, get_or, get_or-set_self, get_or-set_ne,
  length-set, u32, All, if◌then◌else◌,
}
use imap2pst.Base.Bits.{bit_and_mask}
use imap2pst.Pst.Format.{nid_type, nid_index}
use imap2pst.Pst.Ndb.State.{NbtEntry}
use imap2pst.Pst.Ndb.Finish.{next_nids, first_user_nid_index}

-- The table after one entry.
abbrev next_step : List ℕ → NbtEntry → List ℕ
next_step next n =
    let t = nid_type n.nid in
    let candidate = u32 (nid_index n.nid + 1) in
    if ltb (get_or next t 0) candidate then set next t candidate else next

nid_type-lt : (nid : ℕ) → nid_type nid < 32
unfolding nid_type
nid_type-lt nid = omega (arith, bit_and_mask 5 nid)

nid_index-lt : (nid : ℕ) → nid < 2 ^ 32 → nid_index nid < 2 ^ 27
unfolding nid_index
nid_index-lt nid h = omega arith

-- A step keeps the size of the table and takes nothing down, and afterwards the entry's index is free no more.
record IsStep (next : List ℕ) (n : NbtEntry) (later : List ℕ) : Type 0 where
  pub size : length later ≡ length next
  pub kept : (t : ℕ) → get_or next t 0 ≤ get_or later t 0
  pub above : nid_index n.nid < get_or later (nid_type n.nid) 0

next_step-IsStep :
    (next : List ℕ) (n : NbtEntry)
    → length next ≡ 32
    → n.nid < 2 ^ 32
    → IsStep next n (next_step next n)
next_step-IsStep next n size small =
    let t : ℕ = nid_type n.nid in
    let c : ℕ = u32 (nid_index n.nid + 1) in
    let exact : c ≡ nid_index n.nid + 1 = omega (arith, nid_index-lt n.nid small) in
    let inside : t < length next = omega (arith, nid_type-lt n.nid) in
    elim (Bool-cases (ltb (get_or next t 0) c)) [
      | inl raise ↦
          let set_here = get_or-set_self next t c 0 inside in
          rw raise (record {
            size = length-set next t c;
            kept = λ k. elim (Bool-cases (t == k)) [
              | inl here ↦
                  subst (λ j. get_or next j 0 ≤ get_or (set next t c) j 0) (==→eq t k here)
                    (omega (arith, set_here, ltb→lt _ _ raise))
              | inr there ↦ omega (arith, get_or-set_ne next t k c 0 (ground arith))
            ];
            above = omega (arith, set_here);
          })
      | inr high ↦
          rw high (record {
            size = refl;
            kept = λ k. omega arith;
            above = omega (arith, ltb→ge _ _ high);
          })
    ]

record IsAbove (next : List ℕ) (ns : List NbtEntry) (later : List ℕ) : Type 0 where
  pub kept : (t : ℕ) → get_or next t 0 ≤ get_or later t 0
  pub above : All (λ n. nid_index n.nid < get_or later (nid_type n.nid) 0) ns

next_nids-IsAbove :
    (ns : List NbtEntry) (next : List ℕ)
    → length next ≡ 32
    → All (λ n. n.nid < 2 ^ 32) ns
    → IsAbove next ns (next_nids next ns)
unfolding next_nids
next_nids-IsAbove [] next size h = record { kept = λ t. omega arith; above = tt }
next_nids-IsAbove (n ∷ ns) next size h =
    let s = next_step-IsStep next n size h.0 in
    let r = next_nids-IsAbove ns (next_step next n) (s.size ∙ size) h.1 in
    record {
      kept = λ t. omega (arith, s.kept t, r.kept t);
      above = (omega (arith, s.above, r.kept (nid_type n.nid)), r.above);
    }

-- Where the NIDs fit into 32 bits, the index that the header publishes for a node type lies above the index of every node of that type, and
-- never below the first index that is free for users.
pub next_nids_lem :
    (ns : List NbtEntry)
    → All (λ n. n.nid < 2 ^ 32) ns
    → (All
        (λ n.
          nid_index n.nid
          < get_or (next_nids (replicate 32 first_user_nid_index) ns) (nid_type n.nid) 0)
        ns)
      × ((t : ℕ)
          → get_or (replicate 32 first_user_nid_index) t 0
            ≤ get_or (next_nids (replicate 32 first_user_nid_index) ns) t 0)
next_nids_lem ns h =
    let r = next_nids-IsAbove ns (replicate 32 first_user_nid_index) refl h in (r.above, r.kept)
