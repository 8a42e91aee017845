-- ===== src/Pst/Ndb/Space/LastMap.antt =====
-- `last_amap_ib_` under `ensureAMapCount` and `markAllocated` of src/pst/ndb.cpp: the position of the last map.
use imap2pst.Base.{
  ℕ, zero, suc, ◌+◌, ◌-◌, ◌*◌, ◌<◌, ◌≡◌, refl, arith, List, [], ◌∷◌, ◌++◌, Bool, true, false, ltb,
  leb, ◌==◌, if◌then◌else◌, length, set, length-set, length-append, Bool-cases, inl, inr,
}
use imap2pst.Pst.Format.{first_amap_pos, first_pmap_pos, amap_span, pmap_span, page_size}
use imap2pst.Pst.Ndb.Space.{
  Maps, zero_map, mark_over, mark_pmaps, add_map, ensure_amap_count, mark_allocated,
}

-- From `m` to `m'` no map is added and the last position stays, or maps are added and it is that of the last of them.
pub data KeepsLast (m m' : Maps) : Type 0 where
  same_maps : length m'.maps ≡ length m.maps → m'.last ≡ m.last → KeepsLast m m'
  more_maps :
      length m.maps < length m'.maps
      → m'.last ≡ first_amap_pos + (length m'.maps - 1) * amap_span
      → KeepsLast m m'

KeepsLast-trans : {a b c : Maps} → KeepsLast a b → KeepsLast b c → KeepsLast a c
KeepsLast-trans (same_maps n e) (same_maps k d) =
    same_maps (omega (arith, n, k)) (omega (arith, e, d))
KeepsLast-trans (same_maps n e) (more_maps k d) = more_maps (omega (arith, n, k)) d
KeepsLast-trans (more_maps n e) (same_maps k d) =
    more_maps (omega (arith, n, k)) (omega (arith, e, k, d))
KeepsLast-trans (more_maps n e) (more_maps k d) = more_maps (omega (arith, n, k)) d

KeepsLast-refl : (m : Maps) → KeepsLast m m
KeepsLast-refl m = same_maps refl refl

KeepsLast-choice :
    {a : Maps} (x y : Maps) (b : Bool)
    → KeepsLast a x
    → KeepsLast a y
    → KeepsLast a (if b then x else y)
KeepsLast-choice x y true f g = f
KeepsLast-choice x y false f g = g

set_map-KeepsLast :
    (m : Maps) (i : ℕ) (bits : List ℕ) → KeepsLast m (record m { maps = set m.maps i bits })
set_map-KeepsLast m i bits = same_maps (length-set m.maps i bits) refl

module _ (ensure : ℕ → Maps → Maps) (keeps : (n : ℕ) (m : Maps) → KeepsLast m (ensure n m)) where
  mark_over-KeepsLast : (ib cb : ℕ) (m : Maps) → KeepsLast m (mark_over ensure ib cb m)
  unfolding mark_over
  mark_over-KeepsLast ib cb m =
      KeepsLast-choice _ _ (ltb ib first_amap_pos) (KeepsLast-refl m)
        (KeepsLast-trans (keeps _ m) (set_map-KeepsLast _ _ _))

  mark_pmaps-KeepsLast :
      (left p amap_ib : ℕ) (m : Maps) → KeepsLast m (mark_pmaps ensure left p amap_ib m)
  unfolding mark_pmaps
  mark_pmaps-KeepsLast zero p amap_ib m = KeepsLast-refl m
  mark_pmaps-KeepsLast (suc left) p amap_ib m =
      KeepsLast-trans
        (KeepsLast-choice _ _ (leb amap_ib p) (mark_over-KeepsLast p page_size m)
          (KeepsLast-refl m))
        (mark_pmaps-KeepsLast left (p + pmap_span) amap_ib _)

  add_map-KeepsLast : (m : Maps) → KeepsLast m (add_map ensure m)
  unfolding add_map
  add_map-KeepsLast m =
      let added : Maps = record {
        maps = m.maps ++ (zero_map ∷ []);
        last = first_amap_pos + length m.maps * amap_span;
      } in
      let longer : length added.maps ≡ length m.maps + 1 = length-append m.maps (zero_map ∷ []) in
      let first : KeepsLast m added = more_maps (omega (arith, longer)) (omega (arith, longer)) in
      let own = KeepsLast-trans first (mark_over-KeepsLast added.last page_size added) in
      KeepsLast-choice _ _ (length m.maps == 0)
        (KeepsLast-trans own (mark_over-KeepsLast first_pmap_pos page_size _))
        (KeepsLast-trans own (mark_pmaps-KeepsLast _ first_pmap_pos added.last _))

pub ensure_amap_count-KeepsLast : (fuel n : ℕ) (m : Maps) → KeepsLast m (ensure_amap_count fuel n m)
unfolding ensure_amap_count
ensure_amap_count-KeepsLast zero n m = KeepsLast-refl m
ensure_amap_count-KeepsLast (suc fuel) n m = elim (Bool-cases (ltb (length m.maps) n)) [
  | inl more ↦
      rw (more, ensure_amap_count)
        (KeepsLast-trans
          (add_map-KeepsLast (ensure_amap_count fuel) (ensure_amap_count-KeepsLast fuel) m)
          (ensure_amap_count-KeepsLast fuel n _))
  | inr enough ↦ rw (enough, ensure_amap_count) (KeepsLast-refl m)
]

pub mark_allocated-KeepsLast : (ib cb : ℕ) (m : Maps) → KeepsLast m (mark_allocated ib cb m)
unfolding mark_allocated
mark_allocated-KeepsLast ib cb m = mark_over-KeepsLast _ (ensure_amap_count-KeepsLast _) ib cb m
