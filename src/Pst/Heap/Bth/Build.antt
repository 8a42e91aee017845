-- ===== src/Pst/Heap/Bth/Build.antt =====
-- `buildBthInto` of src/pst/heap.h whole: the loop over the levels, and the tree against its reader.
use imap2pst.Base.{
  ℕ, zero, suc, ◌+◌, ◌*◌, ◌^◌, ◌≤◌, ◌<◌, ◌≡◌, refl, sym, ap, subst, ◌∙◌, arith, List, [], ◌∷◌,
  append-nil, All, Option, some, true, false, ltb, ◌==◌, if◌then◌else◌, length,
}
use imap2pst.Base.Sort.{sort_by}
use native.Mathlib.Nat.{pow-suc}
use imap2pst.Pst.Format.{put32}
use imap2pst.Pst.Ndb.State.{Result, ok, bth_too_deep}
use imap2pst.Pst.Run.{Run, ◌>>=◌, throw, bind_ok}
use imap2pst.Pst.Heap.Bth.{
  BthRecord, BthLevel, key_value, bth_leaves, bth_next, bth_levels, front_hid, bth_header,
  build_bth_into,
}
use imap2pst.Pst.Heap.Bth.Reader.{read_all, read_level, read_bth}
use imap2pst.Pst.Heap.Bth.Pages.{IsRecord, IsLevel}
use imap2pst.Pst.Heap.Bth.Allocator.{Keeps, IsAllocator}
use imap2pst.Pst.Heap.Bth.Levels.{
  hids, IsBuilt, some_result, then_some, read_level_kept, bth_leaves-IsBuilt, bth_next-IsBuilt,
}
use imap2pst.Pst.Heap.Bth.Header.{All-sort_by, length-sort_by, read_header-bth_header}

single_read :
    (f : ℕ → Option (List BthRecord)) (l : BthLevel) (rs : List BthRecord)
    → read_all f (hids (l ∷ [])) ≡ some rs
    → f l.hid ≡ some rs
unfolding read_all
single_read f l rs e =
    let (first, found, all) = some_result (f l.hid) _ e in
    found ∙ ap some (sym (append-nil first)) ∙ all

not_deep : (levels : ℕ) → levels + 1 ≤ 8 → ltb 8 (levels + 1) ≡ false
not_deep levels h = ground arith

two_pages : (n : ℕ) → ltb 1 (suc (suc n)) ≡ true
two_pages n = ground arith

not_zero : (n : ℕ) → 0 < n → (n == 0) ≡ false
not_zero n h = ground arith

-- Runs of the loops, put together from the runs of their parts.
module _ {H : Type 0} (alloc : List ℕ → Run H ℕ) (max_alloc cb_key cb_ent : ℕ) where
  round_run :
      (fuel levels : ℕ) (l l2 : BthLevel) (more : List BthLevel) (h : H) {next : List BthLevel}
      {h1 : H} {end : Result (ℕ × List BthLevel) × H}
      → levels + 1 ≤ 8
      → bth_next alloc max_alloc cb_key cb_ent (length (l ∷ l2 ∷ more)) (l ∷ l2 ∷ more) h
        ≡ (ok next, h1)
      → bth_levels alloc max_alloc cb_key cb_ent fuel (levels + 1) next h1 ≡ end
      → bth_levels alloc max_alloc cb_key cb_ent (suc fuel) levels (l ∷ l2 ∷ more) h ≡ end
  unfolding bth_levels
  round_run fuel levels l l2 more h low e1 e2 =
      rw (bth_levels, two_pages (length more))
        (bind_ok (bth_next alloc max_alloc cb_key cb_ent (length (l ∷ l2 ∷ more)) (l ∷ l2 ∷ more))
            (λ next.
              if ltb 8 (levels + 1)
              then throw bth_too_deep
              else bth_levels alloc max_alloc cb_key cb_ent fuel (levels + 1) next)
            e1
          ∙ rw (not_deep levels low) e2)

  tree_run :
      (r : BthRecord) (more : List BthRecord) (h : H) {leaves top : List BthLevel} {levels hid : ℕ}
      {h1 h2 h3 : H}
      → (let rs = sort_by (λ (r : BthRecord). key_value r.key) (r ∷ more) in
          bth_leaves alloc max_alloc cb_key cb_ent (length rs) rs h)
        ≡ (ok leaves, h1)
      → bth_levels alloc max_alloc cb_key cb_ent 9 0 leaves h1 ≡ (ok (levels, top), h2)
      → alloc (bth_header cb_key cb_ent levels (front_hid top)) h2 ≡ (ok hid, h3)
      → build_bth_into alloc max_alloc cb_key cb_ent (r ∷ more) h ≡ (ok hid, h3)
  unfolding build_bth_into
  tree_run r more h {leaves = leaves} e1 e2 e3 =
      let rs = sort_by (λ (r : BthRecord). key_value r.key) (r ∷ more) in
      let finish : ℕ × List BthLevel → Run H ℕ =
        λ t. alloc (bth_header cb_key cb_ent t.0 (front_hid t.1)) in
      bind_ok (bth_leaves alloc max_alloc cb_key cb_ent (length rs) rs)
        (λ leaves. bth_levels alloc max_alloc cb_key cb_ent 9 0 leaves >>= finish) e1
      ∙ bind_ok (bth_levels alloc max_alloc cb_key cb_ent 9 0 leaves) finish e2
      ∙ e3

-- What a tree that has been built is: its HID, and the heap that has it.
pub HasTree :
    {H : Type 0}
    → (H → ℕ → Option (List ℕ))
    → ℕ
    → ℕ
    → (List BthRecord → Run H ℕ)
    → List BthRecord
    → H
    → Type 0
HasTree {H} lookup cb_key cb_ent build records h =
    (hid : ℕ) × (h' : H) × (build records h ≡ (ok hid, h'))
    × (read_bth cb_key cb_ent (lookup h') hid
        ≡ some (sort_by (λ (r : BthRecord). key_value r.key) records))
    × Keeps lookup h h'

module _ {H : Type 0} {alloc : List ℕ → Run H ℕ} {lookup : H → ℕ → Option (List ℕ)}
    {Room : ℕ → H → Type 0} {max_alloc : ℕ} (heap : IsAllocator alloc lookup Room max_alloc)
    (cb_key cb_ent : ℕ) where
  -- What the loop over the levels starts with: the pages `ls` of a level hold `rs`.
  IsLevelOf : ℕ → H → List BthLevel → List BthRecord → Type 0
  IsLevelOf levels h ls rs =
      All (IsLevel cb_key) ls
      × (read_all (read_level cb_key cb_ent (lookup h) levels) (hids ls) ≡ some rs)

  -- With a sixteenth as many pages in each level as in the one below, `m` rounds leave one page.
  bth_levels-IsBuilt :
      (fuel m levels room : ℕ) (ls : List BthLevel) (rs : List BthRecord) (h : H)
      → IsLevelOf levels h ls rs
      → 0 < cb_key
      → 16 * (cb_key + 4) ≤ max_alloc
      → 1 ≤ length ls
      → length ls ≤ 16 ^ m
      → levels + m ≤ 8
      → m < fuel
      → Room (2 * length ls + room) h
      → (top : BthLevel) × (end : ℕ) × (h' : H) × (bth_levels alloc max_alloc cb_key cb_ent fuel
            levels ls h
          ≡ (ok (end, top ∷ []), h'))
        × IsBuilt lookup Room cb_key cb_ent room end h h' (top ∷ []) rs
        × (end ≤ 8)
  unfolding bth_levels IsLevelOf
  bth_levels-IsBuilt zero m levels room ls rs h v some_key fits page few shallow enough free =
      absurd (omega arith)
  bth_levels-IsBuilt (suc fuel) m levels room [] rs h v some_key fits page few shallow enough free =
      absurd (omega arith)
  bth_levels-IsBuilt (suc fuel) m levels room (l ∷ []) rs h v some_key fits page few shallow enough
        free =
      (
        l,
        levels,
        h,
        refl,
        record {
          free = heap.weaker room (2 * 1 + room) h (omega arith) free;
          keeps = λ old item e. e;
          levels = v.0;
          covers = v.1;
        },
        omega arith,
      )
  bth_levels-IsBuilt (suc fuel) zero levels room (l ∷ l2 ∷ ls) rs h v some_key fits page few shallow
        enough free =
      absurd (omega arith)
  bth_levels-IsBuilt (suc fuel) (suc m) levels room (l ∷ l2 ∷ more) rs h v some_key fits page few
        shallow enough free =
      let ls : List BthLevel = l ∷ l2 ∷ more in
      let up : suc levels ≡ levels + 1 = omega arith in
      let (next, h1, e1, built, fewer, one) =
        bth_next-IsBuilt heap cb_key cb_ent (length ls) (length ls + room) levels ls rs h v.0 v.1
          some_key fits (omega arith) (heap.weaker _ (2 * length ls + room) h (omega arith) free) in
      let (top, end, h2, e2, built2, low) =
        bth_levels-IsBuilt fuel m (levels + 1) room next rs h1
          (
            built.levels,
            subst (λ k. read_all (read_level cb_key cb_ent (lookup h1) k) (hids next) ≡ some rs) up
                built.covers,
          )
          some_key fits (omega arith) (omega (arith, pow-suc 16 m)) (omega arith) (omega arith)
          (heap.weaker _ (length ls + room) h1 (omega arith) built.free) in
      (
        top,
        end,
        h2,
        round_run alloc max_alloc cb_key cb_ent fuel levels l l2 more h (omega arith) e1 e2,
        record {
          free = built2.free;
          keeps = λ old item e. built2.keeps old item (built.keeps old item e);
          levels = built2.levels;
          covers = built2.covers;
        },
        low,
      )

  -- The tree without records.
  empty_tree :
      (h : H)
      → cb_key < 256
      → cb_ent < 256
      → 8 ≤ max_alloc
      → Room 1 h
      → HasTree lookup cb_key cb_ent (build_bth_into alloc max_alloc cb_key cb_ent) [] h
  unfolding HasTree build_bth_into read_bth bth_header put32 sort_by
  empty_tree h small_key small_ent fits free =
      let (hid, h', e, stored) = heap.stores 0 h (bth_header cb_key cb_ent 0 0) free fits in
      (
        hid,
        h',
        e,
        then_some _ _ stored.found (
            read_header-bth_header cb_key cb_ent (lookup h') 0 0 small_key small_ent (omega arith)
              (omega arith)),
        stored.keeps,
      )

  header_fits :
      (levels root : ℕ) → 8 ≤ max_alloc → length (bth_header cb_key cb_ent levels root) ≤ max_alloc
  unfolding bth_header put32
  header_fits levels root h = h

  -- On a heap with room, the records go into a tree that is read back whole and sorted.
  pub build_bth_into-HasTree :
      (records : List BthRecord) (h : H)
      → All (IsRecord cb_key cb_ent) records
      → 0 < cb_key
      → cb_key < 256
      → cb_ent < 256
      → cb_key + cb_ent ≤ max_alloc
      → 16 * (cb_key + 4) ≤ max_alloc
      → length records ≤ 2 ^ 32
      → Room (3 * length records + 1) h
      → HasTree lookup cb_key cb_ent (build_bth_into alloc max_alloc cb_key cb_ent) records h
  unfolding HasTree build_bth_into read_bth front_hid IsLevelOf
  build_bth_into-HasTree [] h vs some_key small_key small_ent fits_leaf fits few free =
      empty_tree h small_key small_ent (omega arith) (heap.weaker 1 _ h (omega arith) free)
  build_bth_into-HasTree (r ∷ more) h vs some_key small_key small_ent fits_leaf fits few free =
      let key = λ (r : BthRecord). key_value r.key in
      let rs : List BthRecord = sort_by key (r ∷ more) in
      let size : length rs ≡ suc (length more) = length-sort_by key (r ∷ more) in
      let (leaves, h1, e1, built, fewer, one) =
        bth_leaves-IsBuilt heap cb_key cb_ent (length rs) (2 * length rs + 1) rs h
          (All-sort_by (IsRecord cb_key cb_ent) key (r ∷ more) vs) some_key fits_leaf (omega arith)
          (heap.weaker _ (3 * suc (length more) + 1) h (omega (arith, size)) free) in
      let (top, levels, h2, e2, built2, low) =
        bth_levels-IsBuilt 9 8 0 1 leaves rs h1 (built.levels, built.covers) some_key fits
          (omega (arith, size)) (omega (arith, size)) (omega arith) (omega arith)
          (heap.weaker _ (2 * length rs + 1) h1 (omega arith) built.free) in
      let header : List ℕ = bth_header cb_key cb_ent levels top.hid in
      let (hid, h3, e3, stored) =
        heap.stores 0 h2 header built2.free (header_fits levels top.hid (omega arith)) in
      (
        hid,
        h3,
        tree_run alloc max_alloc cb_key cb_ent r more h e1 e2 e3,
        then_some _ _ stored.found (
            read_header-bth_header cb_key cb_ent (lookup h3) levels top.hid small_key small_ent
              (omega arith) built2.levels.0.hid
            ∙ rw (not_zero top.hid built2.levels.0.some_hid) (
                read_level_kept lookup cb_key cb_ent levels top.hid rs h2 h3 stored.keeps (
                  single_read (read_level cb_key cb_ent (lookup h2) levels) top rs built2.covers))),
        λ old item e. stored.keeps old item (built2.keeps old item (built.keeps old item e)),
      )
