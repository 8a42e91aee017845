-- ===== src/Pst/Ndb/Space/Growth.antt =====
-- The list of allocation maps under `ensureAMapCount` and `markAllocated` of src/pst/ndb.cpp: it
-- only grows, and no mark is ever taken away.
use imap2pst.Base.{
  ℕ, zero, suc, ◌+◌, ◌-◌, ◌*◌, ◌/◌, ◌%◌, ◌^◌, ◌≤◌, ◌<◌, ◌≡◌, refl, sym, ap, subst, ◌∙◌, Bool, true,
  false, ◌&&◌, ◌||◌, List, [], ◌∷◌, ◌++◌, arith, ltb, leb, ◌==◌, if◌then◌else◌, length, get_or, set,
  All, All-set, All-get_or_lt, All-append, All-replicate, length-set, length-append,
  get_or-set_self, get_or-set_ne, get_or-append_left, get_or_past, set_past, Bool-cases, inl, inr,
  ltb→lt, ltb→ge, ==→eq, ◌>>>◌,
}
use imap2pst.Base.Bits.{zero-bit_and}
use imap2pst.Pst.Format.{
  first_amap_pos, first_pmap_pos, amap_span, pmap_span, page_size, block_align, align_up,
}
use imap2pst.Pst.Format.Align.{align_up_64}
use imap2pst.Pst.Ndb.Space.{
  Maps, zero_map, mark_bits, mark_over, mark_pmaps, add_map, ensure_amap_count, mark_allocated,
}
use imap2pst.Pst.Ndb.Space.Bitmap.{IsByte, is_set, mark_bits_lem}

-- A map has 496 bytes.
abbrev pub IsMap : List ℕ → Type 0
IsMap bits = (length bits ≡ 496) × All IsByte bits

abbrev pub map_index : ℕ → ℕ
map_index pos = (pos - first_amap_pos) / amap_span

abbrev pub slot : ℕ → ℕ
slot pos = (pos - first_amap_pos) % amap_span / block_align

-- Whether the 64-byte slot at a file position is marked as allocated.
unfoldable pub is_marked : List (List ℕ) → ℕ → Bool
is_marked maps pos = is_set (get_or maps (map_index pos) []) (slot pos)

-- The maps `m'` have come from `m`: none is lost, no mark is taken away, all are well formed.
pub record Grows (m m' : List (List ℕ)) : Type 0 where
  pub longer : length m ≤ length m'
  pub kept : (pos : ℕ) → is_marked m pos ≡ true → is_marked m' pos ≡ true
  pub valid : All IsMap m'

Grows-refl : (m : List (List ℕ)) → All IsMap m → Grows m m
Grows-refl m v = record { longer = omega arith; kept = λ pos h. h; valid = v }

pub Grows-trans : {a b c : List (List ℕ)} → Grows a b → Grows b c → Grows a c
Grows-trans f g = record {
  longer = omega (arith, f.longer, g.longer);
  kept = λ pos h. g.kept pos (f.kept pos h);
  valid = g.valid;
}

is_set-nil : (j : ℕ) → is_set [] j ≡ false
is_set-nil j = ground (arith, zero-bit_and (0x80 >>> (j % 8)))

append_map-Grows : (m : List (List ℕ)) → All IsMap m → Grows m (m ++ (zero_map ∷ []))
unfolding is_marked
append_map-Grows m v = record {
  longer = omega (arith, length-append m (zero_map ∷ []));
  kept = λ pos h. elim (Bool-cases (ltb (map_index pos) (length m))) [
    | inl inside ↦
        ap (λ t. is_set t (slot pos))
          (get_or-append_left m _ (map_index pos) [] (ltb→lt _ _ inside))
        ∙ h
    | inr outside ↦ absurd (no_mark pos h outside)
  ];
  valid =
      All-append IsMap m (zero_map ∷ []) v ((refl, All-replicate IsByte 496 0 (omega arith)), tt);
}
  where
    no_mark :
        (pos : ℕ)
        → is_set (get_or m (map_index pos) []) (slot pos) ≡ true
        → ltb (map_index pos) (length m) ≡ false
        → ⊥
    no_mark pos h o = cc (
      is_set-nil (slot pos),
      ap (λ t. is_set t (slot pos)) (get_or_past m (map_index pos) [] (ltb→ge _ _ o)),
    )

-- What marking a run of bits in the map of `pos` says of `pos`.
is_marked-set_map :
    (m : List (List ℕ)) (n bit pos : ℕ)
    → All IsMap m
    → map_index pos < length m
    → is_marked (set m (map_index pos) (mark_bits n bit (get_or m (map_index pos) []))) pos
      ≡ ((leb bit (slot pos) && ltb (slot pos) (bit + n)) || is_marked m pos)
unfolding is_marked
is_marked-set_map m n bit pos v inside =
    let i : ℕ = map_index pos in
    let here = All-get_or_lt IsMap m i [] v inside in
    ap (λ t. is_set t (slot pos)) (get_or-set_self m i (mark_bits n bit (get_or m i [])) [] inside)
    ∙ (mark_bits_lem n bit (get_or m i []) here.1).2 (slot pos) (omega (arith, here.0))

or_true : (a b : Bool) → b ≡ true → (a || b) ≡ true
or_true a b h = ground arith

set_map-Grows :
    (m : List (List ℕ)) (i n bit : ℕ)
    → All IsMap m
    → Grows m (set m i (mark_bits n bit (get_or m i [])))
unfolding is_marked
set_map-Grows m i n bit v = elim (Bool-cases (ltb i (length m))) [
  | inl inside ↦
      let here = All-get_or_lt IsMap m i [] v (ltb→lt _ _ inside) in
      let done = mark_bits_lem n bit (get_or m i []) here.1 in
      record {
        longer = omega (arith, length-set m i (mark_bits n bit (get_or m i [])));
        kept = λ pos h. elim (Bool-cases (i == map_index pos)) [
          | inl e ↦
              let same : i ≡ map_index pos = ==→eq _ _ e in
              subst (λ t. is_marked (set m t (mark_bits n bit (get_or m t []))) pos ≡ true)
                (sym same)
                (is_marked-set_map m n bit pos v (omega (arith, ltb→lt _ _ inside)) ∙ or_true _ _ h)
          | inr ne ↦
              ap (λ t. is_set t (slot pos)) (get_or-set_ne m i (map_index pos) _ [] (ground arith))
              ∙ h
        ];
        valid = All-set IsMap m i _ v (done.1 ∙ here.0, done.0);
      }
  | inr outside ↦
      rw (set_past m i (mark_bits n bit (get_or m i [])) (ltb→ge _ _ outside)) (Grows-refl m v)
]

Grows-choice :
    {a : List (List ℕ)} (x y : Maps) (b : Bool)
    → Grows a x.maps
    → Grows a y.maps
    → Grows a (if b then x else y).maps
Grows-choice x y true f g = f
Grows-choice x y false f g = g

module _ (ensure : ℕ → Maps → Maps)
    (keeps : (n : ℕ) (m : Maps) → All IsMap m.maps → Grows m.maps (ensure n m).maps) where
  mark_over-Grows :
      (ib cb : ℕ) (m : Maps) → All IsMap m.maps → Grows m.maps (mark_over ensure ib cb m).maps
  unfolding mark_over
  mark_over-Grows ib cb m v = elim (Bool-cases (ltb ib first_amap_pos)) [
    | inl low ↦ rw low (Grows-refl m.maps v)
    | inr high ↦
        let first = keeps (map_index ib + 1) m v in
        rw high (
          Grows-trans first
            (set_map-Grows (ensure (map_index ib + 1) m).maps (map_index ib) _ _ first.valid))
  ]

  mark_pmaps-Grows :
      (left p amap_ib : ℕ) (m : Maps)
      → All IsMap m.maps
      → Grows m.maps (mark_pmaps ensure left p amap_ib m).maps
  unfolding mark_pmaps
  mark_pmaps-Grows zero p amap_ib m v = Grows-refl m.maps v
  mark_pmaps-Grows (suc left) p amap_ib m v =
      let here =
        Grows-choice _ _ (leb amap_ib p) (mark_over-Grows p page_size m v) (Grows-refl m.maps v) in
      Grows-trans here (mark_pmaps-Grows left (p + pmap_span) amap_ib _ here.valid)

  -- A round adds one map, and keeps what is marked.
  add_map-Grows :
      (m : Maps) → All IsMap m.maps → Grows (m.maps ++ (zero_map ∷ [])) (add_map ensure m).maps
  unfolding add_map
  add_map-Grows m v =
      let appended = append_map-Grows m.maps v in
      let own =
        mark_over-Grows (first_amap_pos + length m.maps * amap_span) page_size
          (record {
            maps = m.maps ++ (zero_map ∷ []);
            last = first_amap_pos + length m.maps * amap_span;
          })
          appended.valid in
      elim (Bool-cases (length m.maps == 0)) [
        | inl first ↦
            rw first (Grows-trans own (mark_over-Grows first_pmap_pos page_size _ own.valid))
        | inr later ↦ rw later (Grows-trans own (mark_pmaps-Grows _ first_pmap_pos _ _ own.valid))
      ]

module _ (fuel : ℕ)
    (keeps : (n : ℕ) (m : Maps)
      → All IsMap m.maps
      → Grows m.maps (ensure_amap_count fuel n m).maps) where
  round-Grows :
      (n : ℕ) (m : Maps)
      → All IsMap m.maps
      → Grows
          (m.maps ++ (zero_map ∷ []))
          (ensure_amap_count fuel n (add_map (ensure_amap_count fuel) m)).maps
  round-Grows n m v =
      let added = add_map-Grows (ensure_amap_count fuel) keeps m v in
      Grows-trans added (keeps n _ added.valid)

pub ensure_amap_count-Grows :
    (fuel n : ℕ) (m : Maps) → All IsMap m.maps → Grows m.maps (ensure_amap_count fuel n m).maps
unfolding ensure_amap_count
ensure_amap_count-Grows zero n m v = Grows-refl m.maps v
ensure_amap_count-Grows (suc fuel) n m v = elim (Bool-cases (ltb (length m.maps) n)) [
  | inl more ↦
      rw (more, ensure_amap_count)
        (Grows-trans (append_map-Grows m.maps v)
          (round-Grows fuel (ensure_amap_count-Grows fuel) n m v))
  | inr enough ↦ rw (enough, ensure_amap_count) (Grows-refl m.maps v)
]

-- With fuel for the maps that are missing, the loop ends with all of them.
pub ensure_amap_count_total :
    (fuel n : ℕ) (m : Maps)
    → All IsMap m.maps
    → n ≤ fuel + length m.maps
    → n ≤ length (ensure_amap_count fuel n m).maps
unfolding ensure_amap_count
ensure_amap_count_total zero n m v h = omega arith
ensure_amap_count_total (suc fuel) n m v h = elim (Bool-cases (ltb (length m.maps) n)) [
  | inl more ↦
      let added = add_map-Grows (ensure_amap_count fuel) (ensure_amap_count-Grows fuel) m v in
      rw (more, ensure_amap_count)
        (ensure_amap_count_total fuel n _ added.valid
          (omega (arith, added.longer, length-append m.maps (zero_map ∷ []))))
  | inr enough ↦ rw (enough, ensure_amap_count) (ltb→ge _ _ enough)
]

pub mark_allocated-Grows :
    (ib cb : ℕ) (m : Maps) → All IsMap m.maps → Grows m.maps (mark_allocated ib cb m).maps
unfolding mark_allocated
mark_allocated-Grows ib cb m v =
    mark_over-Grows (ensure_amap_count (map_index ib + 1))
      (ensure_amap_count-Grows (map_index ib + 1)) ib cb m v

in_range :
    (bit j n : ℕ) (b : Bool) → bit ≤ j → j < bit + n → ((leb bit j && ltb j (bit + n)) || b) ≡ true
in_range bit j n b h k = ground arith

lt→not_ltb : (a b : ℕ) → b ≤ a → ltb a b ≡ false
lt→not_ltb a b h = ground arith

-- Marking a range that lies in one span marks every position of it.
pub mark_allocated_marks :
    (ib cb pos : ℕ) (m : Maps)
    → All IsMap m.maps
    → first_amap_pos ≤ ib
    → ib % block_align ≡ 0
    → cb < 2 ^ 63
    → (ib - first_amap_pos) % amap_span + cb ≤ amap_span
    → ib ≤ pos
    → pos < ib + cb
    → is_marked (mark_allocated ib cb m).maps pos ≡ true
unfolding mark_allocated mark_over
mark_allocated_marks ib cb pos m v lo aligned small fits from to =
    let fuel : ℕ = map_index ib + 1 in
    let m' = ensure_amap_count fuel fuel m in
    let grown = ensure_amap_count-Grows fuel fuel m v in
    let there = ensure_amap_count_total fuel fuel m v (omega arith) in
    let n : ℕ = align_up cb block_align / block_align in
    let bit : ℕ = (ib - (first_amap_pos + map_index ib * amap_span)) / block_align in
    let size : n ≡ (cb + 63) / 64 = omega (arith, align_up_64 cb (omega arith)) in
    let same : map_index pos ≡ map_index ib = omega arith in
    let starts : bit ≤ slot pos = omega arith in
    let ends : slot pos < bit + n = omega arith in
    rw (lt→not_ltb ib first_amap_pos lo) (
      subst (λ i. is_marked (set m'.maps i (mark_bits n bit (get_or m'.maps i []))) pos ≡ true) same
        (is_marked-set_map m'.maps n bit pos grown.valid (omega arith)
          ∙ in_range bit (slot pos) n _ starts ends))
