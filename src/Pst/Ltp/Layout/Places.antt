-- ===== src/Pst/Ltp/Layout/Places.antt =====
-- The places that one width gets in `layout` of src/pst/ltp.cpp.
use imap2pst.Base.{
  ℕ, suc, ◌+◌, ◌*◌, ◌^◌, ◌≤◌, ◌<◌, ◌≡◌, ◌≢◌, refl, sym, ap, subst, ◌∙◌, arith, List, [], ◌∷◌, true,
  false, Bool-cases, inl, inr, ◌⊎◌, ◌==◌, ==→eq, length, u16,
}
use native.Mathlib.Nat.{mul-suc}
use imap2pst.Pst.Ltp.Layout.{Column, place_width}

-- The columns of width `w` stand one after the other from `lo` on, and end before `hi`.
unfoldable pub IsPlaced : ℕ → ℕ → ℕ → List Column → Type 0
IsPlaced w lo hi [] = lo ≤ hi
IsPlaced w lo hi (c ∷ cs) =
    ((c.cb ≡ w) × (c.ib ≡ lo) × IsPlaced w (lo + w) hi cs) ⊎ ((c.cb ≢ w) × IsPlaced w lo hi cs)

-- A column keeps what it has but for its place.
unfoldable pub SameColumns : List Column → List Column → Type 0
SameColumns [] [] = Unit
SameColumns (c ∷ cs) (d ∷ ds) = (c.cb ≡ d.cb) × (c.ibit ≡ d.ibit) × SameColumns cs ds
SameColumns [] (d ∷ ds) = ⊥
SameColumns (c ∷ cs) [] = ⊥

==→ne : (a b : ℕ) → (a == b) ≡ false → a ≢ b
==→ne a b e = ground arith

place_one :
    (w off : ℕ) (c : Column) (cs : List Column)
    → (c.cb == w) ≡ true
    → place_width w off (c ∷ cs) ≡ (
      (place_width w (u16 (off + w)) cs).0,
      record c { ib = off } ∷ (place_width w (u16 (off + w)) cs).1,
    )
unfolding place_width
place_one w off c cs e = rw (place_width, e) refl

pass_one :
    (w off : ℕ) (c : Column) (cs : List Column)
    → (c.cb == w) ≡ false
    → place_width w off (c ∷ cs) ≡ ((place_width w off cs).0, c ∷ (place_width w off cs).1)
unfolding place_width
pass_one w off c cs e = rw (place_width, e) refl

no_wrap : (a b : ℕ) → a + b < 2 ^ 16 → u16 (a + b) ≡ a + b
no_wrap a b h = omega arith

-- What a pass over the columns does.
pub record IsPass (w off : ℕ) (cs : List Column) (r : ℕ × List Column) : Type 0 where
  pub placed : IsPlaced w off r.0 r.1
  pub upper : r.0 ≤ off + w * length cs
  pub lower : off ≤ r.0
  pub step : (k : ℕ) × (r.0 ≡ off + k * w)

pub place_width-IsPass :
    (w off : ℕ) (cs : List Column)
    → off + w * length cs < 2 ^ 16
    → IsPass w off cs (place_width w off cs)
unfolding place_width IsPlaced
place_width-IsPass w off [] h = record {
  placed = omega arith;
  upper = omega arith;
  lower = omega arith;
  step = (0, omega arith);
}
place_width-IsPass w off (c ∷ cs) h = elim (Bool-cases (c.cb == w)) [
  | inl same ↦
      let next : u16 (off + w) ≡ off + w = no_wrap off w (omega (arith, mul-suc w (length cs))) in
      let rest = place_width-IsPass w (off + w) cs (omega (arith, mul-suc w (length cs))) in
      subst (IsPass w off (c ∷ cs))
        (sym (
          place_one w off c cs same
          ∙ ap (λ n. ((place_width w n cs).0, record c { ib = off } ∷ (place_width w n cs).1))
              next))
        (record {
          placed = inl (==→eq c.cb w same, refl, rest.placed);
          upper = omega (arith, rest.upper, mul-suc w (length cs));
          lower = omega (arith, rest.lower);
          step = (suc rest.step.0, omega (arith, rest.step.1, suc_times rest.step.0 w));
        })
  | inr other ↦
      let rest = place_width-IsPass w off cs (omega (arith, mul-suc w (length cs))) in
      subst (IsPass w off (c ∷ cs)) (sym (pass_one w off c cs other)) (record {
        placed = inr (==→ne c.cb w other, rest.placed);
        upper = omega (arith, rest.upper, mul-suc w (length cs));
        lower = rest.lower;
        step = rest.step;
      })
]
  where
    suc_times : (n m : ℕ) → suc n * m ≡ m + n * m
    suc_times n m = omega arith

-- A pass for another width leaves the columns of this one, and it leaves all widths and bits.
pub IsPlaced-place_width :
    (w v off lo hi : ℕ) (cs : List Column)
    → w ≢ v
    → IsPlaced w lo hi cs
    → IsPlaced w lo hi (place_width v off cs).1
unfolding place_width IsPlaced
IsPlaced-place_width w v off lo hi [] ne h = h
IsPlaced-place_width w v off lo hi (c ∷ cs) ne h = elim (Bool-cases (c.cb == v)) [
  | inl same ↦
      subst (λ (r : ℕ × List Column). IsPlaced w lo hi r.1) (sym (place_one v off c cs same))
        (elim h [
          | inl here ↦ absurd (ne (sym here.0 ∙ ==→eq c.cb v same))
          | inr away ↦ inr (away.0, IsPlaced-place_width w v (u16 (off + v)) lo hi cs ne away.1)
        ])
  | inr other ↦
      subst (λ (r : ℕ × List Column). IsPlaced w lo hi r.1) (sym (pass_one v off c cs other))
        (elim h [
          | inl here ↦ inl (here.0, here.1, IsPlaced-place_width w v off (lo + w) hi cs ne here.2)
          | inr away ↦ inr (away.0, IsPlaced-place_width w v off lo hi cs ne away.1)
        ])
]

pub place_width-SameColumns :
    (w off : ℕ) (cs : List Column) → SameColumns (place_width w off cs).1 cs
unfolding place_width SameColumns
place_width-SameColumns w off [] = tt
place_width-SameColumns w off (c ∷ cs) = elim (Bool-cases (c.cb == w)) [
  | inl same ↦
      subst (λ (r : ℕ × List Column). SameColumns r.1 (c ∷ cs)) (sym (place_one w off c cs same))
        (refl, refl, place_width-SameColumns w (u16 (off + w)) cs)
  | inr other ↦
      subst (λ (r : ℕ × List Column). SameColumns r.1 (c ∷ cs)) (sym (pass_one w off c cs other))
        (refl, refl, place_width-SameColumns w off cs)
]
