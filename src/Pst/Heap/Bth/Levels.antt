-- ===== src/Pst/Heap/Bth/Levels.antt =====
-- One level of the tree of src/pst/heap.h: what its pages hold can be read through the level above.
use imap2pst.Base.{
  ℕ, zero, suc, ◌+◌, ◌*◌, ◌/◌, min, ◌≤◌, ◌<◌, ◌≡◌, refl, sym, ap, subst, ◌∙◌, arith, List, [], ◌∷◌,
  ◌++◌, append_assoc, All, Option, none, some, length, take, drop, map, take-append-drop,
  length-take, length-drop, All-take, All-drop, Bool-cases, inl, inr, leb, leb→le, leb→gt, tests,
}
use native.Mathlib.Nat.{le_trans, mul-le-mul_right, div-mul-le_self, lt-div-mul-add}
use imap2pst.Pst.Ndb.State.{ok}
use imap2pst.Pst.Run.{Run, ◌>>=◌, return, bind_ok}
use imap2pst.Pst.Heap.Bth.{
  BthRecord, BthLevel, leaf_page, inter_page, per_page, bth_leaves, bth_next,
}
use imap2pst.Pst.Heap.Bth.Reader.{and_then, read_all, read_level}
use imap2pst.Pst.Heap.Bth.Pages.{
  IsRecord, IsLevel, length-leaf_page, length-inter_page, read_leaf_page-leaf_page,
  read_inter_page-inter_page,
}
use imap2pst.Pst.Heap.Bth.Allocator.{Keeps, IsStored, IsAllocator}

abbrev pub hids : List BthLevel → List ℕ
hids ls = map (λ (l : BthLevel). l.hid) ls

pub some_result :
    {A B : Type 0} (o : Option A) (f : A → Option B) {b : B}
    → and_then o f ≡ some b
    → (a : A) × (o ≡ some a) × (f a ≡ some b)
some_result none f e = absurd (cc)
some_result (some a) f e = (a, refl, e)

pub then_some :
    {A B : Type 0} (o : Option A) (f : A → Option B) {a : A} {b : B}
    → o ≡ some a
    → f a ≡ some b
    → and_then o f ≡ some b
then_some o f e k = ap (λ p. and_then p f) e ∙ k

-- A list of pages is read in two parts.
read_all_parts :
    (f : ℕ → Option (List BthRecord)) (n : ℕ) (ls : List BthLevel) (rs : List BthRecord)
    → read_all f (hids ls) ≡ some rs
    → (a : List BthRecord) × (b : List BthRecord) × (read_all f (hids (take n ls)) ≡ some a)
      × (read_all f (hids (drop n ls)) ≡ some b)
      × (rs ≡ a ++ b)
unfolding read_all
read_all_parts f zero ls rs e = ([], rs, refl, e, refl)
read_all_parts f (suc n) [] rs e = ([], rs, refl, e, refl)
read_all_parts f (suc n) (l ∷ ls) rs e =
    let (first, e_first, k) = some_result (f l.hid) _ e in
    let (rest, e_rest, all) = some_result (read_all f (hids ls)) _ k in
    let (a, b, e_a, e_b, parts) = read_all_parts f n ls rest e_rest in
    (
      first ++ a,
      b,
      then_some (f l.hid) _ e_first (then_some (read_all f (hids (take n ls))) _ e_a refl),
      e_b,
      cc (all, parts, append_assoc first a b),
    )

read_all_mono :
    (f g : ℕ → Option (List BthRecord)) (hs : List ℕ) (rs : List BthRecord)
    → ((hid : ℕ) (part : List BthRecord) → f hid ≡ some part → g hid ≡ some part)
    → read_all f hs ≡ some rs
    → read_all g hs ≡ some rs
unfolding read_all
read_all_mono f g [] rs mono e = e
read_all_mono f g (hid ∷ hs) rs mono e =
    let (first, e_first, k) = some_result (f hid) _ e in
    let (rest, e_rest, all) = some_result (read_all f hs) _ k in
    then_some (g hid) _ (mono hid first e_first)
      (then_some (read_all g hs) _ (read_all_mono f g hs rest mono e_rest) all)

-- So many entries fit into an allocation.
pub per_page_room : (m e k : ℕ) → 0 < e → e ≤ m → k ≤ per_page m e → k * e ≤ m
unfolding per_page
per_page_room m e k some_entry fits few = elim (Bool-cases (leb 1 (m / e))) [
  | inl many ↦
      le_trans (mul-le-mul_right e (omega (tests, leb→le 1 (m / e) many))) (div-mul-le_self m e)
  | inr one ↦
      let single : k * e ≤ 1 * e = mul-le-mul_right e (omega (tests, leb→gt 1 (m / e) one)) in
      omega arith
]

pub some_per_page : (m e : ℕ) → 1 ≤ per_page m e
unfolding per_page
some_per_page m e = omega arith

none_read :
    (f : ℕ → Option (List BthRecord)) {rs : List BthRecord} → read_all f [] ≡ some rs → [] ≡ rs
unfolding read_all
none_read f e = cc

-- Both loops: a page, and then the pages behind it.
push_run :
    {H : Type 0} (page : Run H ℕ) (loop : Run H (List BthLevel)) (key : List ℕ) {h h1 h2 : H}
    {hid : ℕ} {ls : List BthLevel}
    → page h ≡ (ok hid, h1)
    → loop h1 ≡ (ok ls, h2)
    → (page >>= λ i. loop >>= λ level. return (record { key = key; hid = i } ∷ level)) h
      ≡ (ok (record { key = key; hid = hid } ∷ ls), h2)
push_run page loop key {hid = hid} e1 e2 =
    bind_ok page (λ i. loop >>= λ level. return (record { key = key; hid = i } ∷ level)) e1
    ∙ bind_ok loop (λ level. return (record { key = key; hid = hid } ∷ level)) e2

-- Where sixteen entries fit, a page has as many.
pub per_page_sixteen : (m e : ℕ) → 0 < e → 16 * e ≤ m → 16 ≤ per_page m e
unfolding per_page
per_page_sixteen m e some_entry fits = elim (Bool-cases (leb 16 (m / e))) [
  | inl many ↦ omega (tests, leb→le 16 (m / e) many)
  | inr few ↦
      let below : m < m / e * e + e = lt-div-mul-add some_entry in
      let fifteen : m / e * e ≤ 15 * e =
        mul-le-mul_right e (omega (tests, leb→gt 16 (m / e) few)) in
      absurd (omega arith)
]

module _ {H : Type 0} (lookup : H → ℕ → Option (List ℕ)) (cb_key cb_ent : ℕ) where
  pub read_level_kept :
      (k hid : ℕ) (rs : List BthRecord) (h h' : H)
      → Keeps lookup h h'
      → read_level cb_key cb_ent (lookup h) k hid ≡ some rs
      → read_level cb_key cb_ent (lookup h') k hid ≡ some rs
  unfolding read_level
  read_level_kept zero hid rs h h' keeps e =
      let (page, found, k) = some_result (lookup h hid) _ e in
      then_some (lookup h' hid) _ (keeps hid page found) k
  read_level_kept (suc n) hid rs h h' keeps e =
      let (page, found, k) = some_result (lookup h hid) _ e in
      then_some (lookup h' hid) _ (keeps hid page found)
        (read_all_mono _ _ _ rs (λ i part. read_level_kept n i part h h' keeps) k)

-- The pages `ls` of level `k`, which came from `h` and stand in `h'`, hold the records `rs`.
pub record IsBuilt {H : Type 0} (lookup : H → ℕ → Option (List ℕ)) (Room : ℕ → H → Type 0)
    (cb_key cb_ent room k : ℕ) (h h' : H) (ls : List BthLevel) (rs : List BthRecord) : Type 0 where
  pub free : Room room h'
  pub keeps : Keeps lookup h h'
  pub levels : All (IsLevel cb_key) ls
  pub covers : read_all (read_level cb_key cb_ent (lookup h') k) (hids ls) ≡ some rs

module _ {H : Type 0} {alloc : List ℕ → Run H ℕ} {lookup : H → ℕ → Option (List ℕ)}
    {Room : ℕ → H → Type 0} {max_alloc : ℕ} (heap : IsAllocator alloc lookup Room max_alloc)
    (cb_key cb_ent : ℕ) where
  -- A page in front of the pages that are built after it.
  push_page :
      {room k j : ℕ} {h h1 h2 : H} {bytes key : List ℕ} {hid : ℕ} {ls : List BthLevel}
      {a b : List BthRecord}
      → length key ≡ cb_key
      → IsStored lookup Room j h bytes hid h1
      → read_level cb_key cb_ent (lookup h1) k hid ≡ some a
      → IsBuilt lookup Room cb_key cb_ent room k h1 h2 ls b
      → IsBuilt lookup Room cb_key cb_ent room k h h2
          (record { key = key; hid = hid } ∷ ls)
          (a ++ b)
  unfolding read_all
  push_page key stored found built = record {
    free = built.free;
    keeps = λ old item e. built.keeps old item (stored.keeps old item e);
    levels = (record { key = key; some_hid = stored.some_hid; hid = stored.small }, built.levels);
    covers =
        then_some _ _ (read_level_kept lookup cb_key cb_ent _ _ _ _ _ built.keeps found)
          (then_some _ _ built.covers refl);
  }

  nothing-IsBuilt :
      {room k : ℕ} (more : ℕ) (h : H)
      → room ≤ more
      → Room more h
      → IsBuilt lookup Room cb_key cb_ent room k h h [] []
  unfolding read_all
  nothing-IsBuilt more h le free = record {
    free = heap.weaker _ more h le free;
    keeps = λ old item e. e;
    levels = tt;
    covers = refl;
  }

  -- The first entries fill a page that the heap takes.
  page_fits : (e n : ℕ) → 0 < e → e ≤ max_alloc → n ≤ per_page max_alloc e → n * e ≤ max_alloc
  page_fits e n = per_page_room max_alloc e n

  taken : {A : Type 0} (n : ℕ) (xs : List A) → length (take n xs) ≤ n
  taken n xs = omega (arith, length-take n xs)

  -- The loop over the leaf pages.
  pub bth_leaves-IsBuilt :
      (fuel room : ℕ) (rs : List BthRecord) (h : H)
      → All (IsRecord cb_key cb_ent) rs
      → 0 < cb_key
      → cb_key + cb_ent ≤ max_alloc
      → length rs ≤ fuel
      → Room (length rs + room) h
      → (ls : List BthLevel) × (h' : H) × (bth_leaves alloc max_alloc cb_key cb_ent fuel rs h
          ≡ (ok ls, h'))
        × IsBuilt lookup Room cb_key cb_ent room 0 h h' ls rs
        × (length ls ≤ length rs)
        × (min 1 (length rs) ≤ length ls)
  unfolding bth_leaves read_level
  bth_leaves-IsBuilt zero room [] h vs some_key fits enough free =
      ([], h, refl, nothing-IsBuilt (0 + room) h (omega arith) free, omega arith, omega arith)
  bth_leaves-IsBuilt (suc fuel) room [] h vs some_key fits enough free =
      ([], h, refl, nothing-IsBuilt (0 + room) h (omega arith) free, omega arith, omega arith)
  bth_leaves-IsBuilt zero room (r ∷ rs) h vs some_key fits enough free = absurd (omega arith)
  bth_leaves-IsBuilt (suc fuel) room (r ∷ rs) h vs some_key fits enough free =
      let n : ℕ = per_page max_alloc (cb_key + cb_ent) in
      let one : 1 ≤ n = some_per_page max_alloc (cb_key + cb_ent) in
      let first : List BthRecord = take n (r ∷ rs) in
      let first_records = All-take (IsRecord cb_key cb_ent) n (r ∷ rs) vs in
      let page : List ℕ = leaf_page cb_key cb_ent first [] in
      let page_size : length page ≤ max_alloc =
        subst (λ k. k ≤ max_alloc) (sym (length-leaf_page cb_key cb_ent first first_records))
          (page_fits (cb_key + cb_ent) (length first) (omega arith) fits (taken n (r ∷ rs))) in
      let (hid, h1, e1, stored) =
        heap.stores (length rs + room) h page
          (heap.weaker _ (suc (length rs) + room) h (omega arith) free) page_size in
      let fewer : length (drop n (r ∷ rs)) ≤ length rs = omega (arith, length-drop n (r ∷ rs)) in
      let (ls, h2, e2, built, few, one_page) =
        bth_leaves-IsBuilt fuel room (drop n (r ∷ rs)) h1
          (All-drop (IsRecord cb_key cb_ent) n (r ∷ rs) vs) some_key fits (omega arith)
          (heap.weaker (length (drop n (r ∷ rs)) + room) (length rs + room) h1 (omega arith)
            stored.room) in
      (
        record { key = r.key; hid = hid } ∷ ls,
        h2,
        push_run (alloc page) (bth_leaves alloc max_alloc cb_key cb_ent fuel (drop n (r ∷ rs)))
            r.key e1 e2,
        subst
            (IsBuilt lookup Room cb_key cb_ent room 0 h h2 (record { key = r.key; hid = hid } ∷ ls))
            (take-append-drop n (r ∷ rs))
            (push_page vs.0.key stored
              (then_some _ _ stored.found
                (ap some (read_leaf_page-leaf_page cb_key cb_ent first first_records some_key)))
              built),
        omega arith,
        omega arith,
      )

  -- The inner loop over the pages of a level.
  pub bth_next-IsBuilt :
      (fuel room k : ℕ) (ls : List BthLevel) (rs : List BthRecord) (h : H)
      → All (IsLevel cb_key) ls
      → read_all (read_level cb_key cb_ent (lookup h) k) (hids ls) ≡ some rs
      → 0 < cb_key
      → 16 * (cb_key + 4) ≤ max_alloc
      → length ls ≤ fuel
      → Room (length ls + room) h
      → (next : List BthLevel) × (h' : H) × (bth_next alloc max_alloc cb_key cb_ent fuel ls h
          ≡ (ok next, h'))
        × IsBuilt lookup Room cb_key cb_ent room (suc k) h h' next rs
        × (16 * length next ≤ length ls + 15)
        × (min 1 (length ls) ≤ length next)
  unfolding bth_next read_level
  bth_next-IsBuilt zero room k [] rs h vs e some_key fits enough free = (
    [],
    h,
    refl,
    subst (IsBuilt lookup Room cb_key cb_ent room (suc k) h h []) (none_read _ e)
        (nothing-IsBuilt (0 + room) h (omega arith) free),
    omega arith,
    omega arith,
  )
  bth_next-IsBuilt (suc fuel) room k [] rs h vs e some_key fits enough free = (
    [],
    h,
    refl,
    subst (IsBuilt lookup Room cb_key cb_ent room (suc k) h h []) (none_read _ e)
        (nothing-IsBuilt (0 + room) h (omega arith) free),
    omega arith,
    omega arith,
  )
  bth_next-IsBuilt zero room k (l ∷ ls) rs h vs e some_key fits enough free = absurd (omega arith)
  bth_next-IsBuilt (suc fuel) room k (l ∷ ls) rs h vs e some_key fits enough free =
      let n : ℕ = per_page max_alloc (cb_key + 4) in
      let many : 16 ≤ n = per_page_sixteen max_alloc (cb_key + 4) (omega arith) fits in
      let first : List BthLevel = take n (l ∷ ls) in
      let first_levels = All-take (IsLevel cb_key) n (l ∷ ls) vs in
      let page : List ℕ = inter_page cb_key first [] in
      let page_size : length page ≤ max_alloc =
        subst (λ k. k ≤ max_alloc) (sym (length-inter_page cb_key first first_levels))
          (page_fits (cb_key + 4) (length first) (omega arith) (omega arith) (taken n (l ∷ ls))) in
      let (a, b, e_a, e_b, parts) = read_all_parts _ n (l ∷ ls) rs e in
      let (hid, h1, e1, stored) =
        heap.stores (length ls + room) h page
          (heap.weaker _ (suc (length ls) + room) h (omega arith) free) page_size in
      let kept = λ (i : ℕ) (part : List BthRecord).
        read_level_kept lookup cb_key cb_ent k i part h h1 stored.keeps in
      let (next, h2, e2, built, few, one_page) =
        bth_next-IsBuilt fuel room k (drop n (l ∷ ls)) b h1
          (All-drop (IsLevel cb_key) n (l ∷ ls) vs)
          (read_all_mono _ _ (hids (drop n (l ∷ ls))) b kept e_b) some_key fits
          (omega (arith, length-drop n (l ∷ ls)))
          (heap.weaker (length (drop n (l ∷ ls)) + room) (length ls + room) h1
            (omega (arith, length-drop n (l ∷ ls))) stored.room) in
      (
        record { key = l.key; hid = hid } ∷ next,
        h2,
        push_run (alloc page) (bth_next alloc max_alloc cb_key cb_ent fuel (drop n (l ∷ ls))) l.key
            e1 e2,
        subst
            (IsBuilt lookup Room cb_key cb_ent room (suc k) h h2
              (record { key = l.key; hid = hid } ∷ next))
            (sym parts)
            (push_page vs.0.key stored
              (then_some _ _ stored.found (
                ap (read_all (read_level cb_key cb_ent (lookup h1) k))
                  (read_inter_page-inter_page cb_key first first_levels some_key)
                ∙ read_all_mono _ _ (hids first) a kept e_a))
              built),
        omega (arith, length-drop n (l ∷ ls)),
        omega arith,
      )
