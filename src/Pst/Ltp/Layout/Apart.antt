-- ===== src/Pst/Ltp/Layout/Apart.antt =====
-- The places of all columns in `layout` of src/pst/ltp.cpp: inside the row, apart from each other, and aligned.
use imap2pst.Base.{
  ℕ, suc, ◌+◌, ◌*◌, ◌≤◌, ◌≡◌, ◌≢◌, sym, ◌∙◌, arith, List, [], ◌∷◌, All, inl, inr, ◌⊎◌,
}
use imap2pst.Pst.Ltp.Layout.{Column}
use imap2pst.Pst.Ltp.Layout.Places.{IsPlaced}

unfoldable pub IsWidth : ℕ → Type 0
IsWidth w = (w ≡ 8) ⊎ ((w ≡ 4) ⊎ ((w ≡ 2) ⊎ (w ≡ 1)))

-- Where the columns of each width may stand.
pub record Ranges : Type 0 where
  pub lo8 : ℕ
  pub lo4 : ℕ
  pub lo2 : ℕ
  pub lo1 : ℕ
  pub hi8 : ℕ
  pub hi4 : ℕ
  pub hi2 : ℕ
  pub hi1 : ℕ

pub record AreRanges (r : Ranges) : Type 0 where
  pub eight : r.hi8 ≤ r.lo4
  pub four : r.hi4 ≤ r.lo2
  pub two : r.hi2 ≤ r.lo1

-- The columns of each width stand in their range.
pub record ArePlaced (r : Ranges) (cs : List Column) : Type 0 where
  pub p8 : IsPlaced 8 r.lo8 r.hi8 cs
  pub p4 : IsPlaced 4 r.lo4 r.hi4 cs
  pub p2 : IsPlaced 2 r.lo2 r.hi2 cs
  pub p1 : IsPlaced 1 r.lo1 r.hi1 cs

unfoldable pub IsBetween : ℕ → ℕ → ℕ → Column → Type 0
IsBetween w lo hi c = (c.cb ≡ w) × (lo ≤ c.ib) × (c.ib + w ≤ hi) × (k : ℕ) × (c.ib ≡ lo + k * w)

unfoldable pub IsInRange : Ranges → Column → Type 0
IsInRange r c =
    IsBetween 8 r.lo8 r.hi8 c
    ⊎ (IsBetween 4 r.lo4 r.hi4 c ⊎ (IsBetween 2 r.lo2 r.hi2 c ⊎ IsBetween 1 r.lo1 r.hi1 c))

-- Two columns share no byte.
unfoldable pub IsApart : Column → Column → Type 0
IsApart c d = (c.ib + c.cb ≤ d.ib) ⊎ (d.ib + d.cb ≤ c.ib)

unfoldable pub AreApart : List Column → Type 0
AreApart [] = Unit
AreApart (c ∷ cs) = All (IsApart c) cs × AreApart cs

pub All-map {κ μ} :
    {A : Type 0} {P : A → Type κ} {Q : A → Type μ} (f : (a : A) → P a → Q a) (xs : List A)
    → All P xs
    → All Q xs
All-map f [] h = tt
All-map f (x ∷ xs) h = (f x h.0, All-map f xs h.1)

placed_le : (w lo hi : ℕ) (cs : List Column) → IsPlaced w lo hi cs → lo ≤ hi
unfolding IsPlaced
placed_le w lo hi [] h = h
placed_le w lo hi (c ∷ cs) (inl here) = omega (arith, placed_le w (lo + w) hi cs here.2)
placed_le w lo hi (c ∷ cs) (inr away) = placed_le w lo hi cs away.1

suc_times : (n m : ℕ) → suc n * m ≡ m + n * m
suc_times n m = omega arith

-- The columns of one width, the others left out.
placed-IsBetween :
    (w lo hi : ℕ) (cs : List Column)
    → IsPlaced w lo hi cs
    → All (λ (c : Column). IsBetween w lo hi c ⊎ (c.cb ≢ w)) cs
unfolding IsPlaced IsBetween
placed-IsBetween w lo hi [] h = tt
placed-IsBetween w lo hi (c ∷ cs) (inl here) = (
  inl (
    here.0,
    omega (arith, here.1),
    omega (arith, here.1, placed_le w (lo + w) hi cs here.2),
    0,
    omega (arith, here.1),
  ),
  All-map
      (λ (d : Column) e. elim e [
        | inl b ↦ inl (b.0, omega (arith, b.1), b.2, suc b.3, omega (arith, b.4, suc_times b.3 w))
        | inr ne ↦ inr ne
      ])
      cs (placed-IsBetween w (lo + w) hi cs here.2),
)
placed-IsBetween w lo hi (c ∷ cs) (inr away) = (inr away.0, placed-IsBetween w lo hi cs away.1)

-- A column that stands in front of the ranges of its width and of those below, and behind those above.
IsAhead : Ranges → Column → Type 0
IsAhead r c =
    ((c.cb ≡ 8) × (c.ib + 8 ≤ r.lo8) × (r.lo8 ≤ r.hi8) × (r.lo4 ≤ r.hi4) × (r.lo2 ≤ r.hi2))
    ⊎ (((c.cb ≡ 4) × (c.ib + 4 ≤ r.lo4) × (r.hi8 ≤ c.ib) × (r.lo4 ≤ r.hi4) × (r.lo2 ≤ r.hi2))
        ⊎ (((c.cb ≡ 2) × (c.ib + 2 ≤ r.lo2) × (r.hi4 ≤ c.ib) × (r.hi8 ≤ c.ib) × (r.lo2 ≤ r.hi2))
            ⊎ ((c.cb ≡ 1) × (c.ib + 1 ≤ r.lo1) × (r.hi2 ≤ c.ib) × (r.hi4 ≤ c.ib) × (r.hi8 ≤ c.ib))))

head-IsApart : (r : Ranges) (c d : Column) → AreRanges r → IsAhead r c → IsInRange r d → IsApart c d
unfolding IsInRange IsBetween IsApart IsAhead
head-IsApart r c d v p h = ground (arith, v.eight, v.four, v.two)

AllBetween : ℕ → ℕ → ℕ → List Column → Type 0
AllBetween w lo hi cs = All (λ (c : Column). IsBetween w lo hi c ⊎ (c.cb ≢ w)) cs

between :
    (w lo hi : ℕ) (c : Column) → IsBetween w lo hi c ⊎ (c.cb ≢ w) → c.cb ≡ w → IsBetween w lo hi c
between w lo hi c (inl b) e = b
between w lo hi c (inr ne) e = absurd (ne e)

All-IsInRange :
    (r : Ranges) (cs : List Column)
    → AllBetween 8 r.lo8 r.hi8 cs
    → AllBetween 4 r.lo4 r.hi4 cs
    → AllBetween 2 r.lo2 r.hi2 cs
    → AllBetween 1 r.lo1 r.hi1 cs
    → All (λ (c : Column). IsWidth c.cb) cs
    → All (IsInRange r) cs
unfolding AllBetween IsInRange IsWidth
All-IsInRange r [] a8 a4 a2 a1 ws = tt
All-IsInRange r (c ∷ cs) a8 a4 a2 a1 ws = (
  elim ws.0 [
    | inl e8 ↦ inl (between 8 r.lo8 r.hi8 c a8.0 e8)
    | inr w4 ↦ inr (elim w4 [
      | inl e4 ↦ inl (between 4 r.lo4 r.hi4 c a4.0 e4)
      | inr w2 ↦ inr (elim w2 [
        | inl e2 ↦ inl (between 2 r.lo2 r.hi2 c a2.0 e2)
        | inr e1 ↦ inr (between 1 r.lo1 r.hi1 c a1.0 e1)
      ])
    ])
  ],
  All-IsInRange r cs a8.1 a4.1 a2.1 a1.1 ws.1,
)

pub in_range :
    (r : Ranges) (cs : List Column)
    → ArePlaced r cs
    → All (λ (c : Column). IsWidth c.cb) cs
    → All (IsInRange r) cs
unfolding AllBetween
in_range r cs h =
    All-IsInRange r cs (placed-IsBetween 8 r.lo8 r.hi8 cs h.p8)
      (placed-IsBetween 4 r.lo4 r.hi4 cs h.p4) (placed-IsBetween 2 r.lo2 r.hi2 cs h.p2)
      (placed-IsBetween 1 r.lo1 r.hi1 cs h.p1)

here :
    (w lo hi : ℕ) (c : Column) (cs : List Column)
    → IsPlaced w lo hi (c ∷ cs)
    → c.cb ≡ w
    → (c.ib ≡ lo) × IsPlaced w (lo + w) hi cs
unfolding IsPlaced
here w lo hi c cs (inl h) e = (h.1, h.2)
here w lo hi c cs (inr h) e = absurd (h.0 e)

away :
    (w lo hi : ℕ) (c : Column) (cs : List Column)
    → IsPlaced w lo hi (c ∷ cs)
    → c.cb ≢ w
    → IsPlaced w lo hi cs
unfolding IsPlaced
away w lo hi c cs (inl h) ne = absurd (ne h.0)
away w lo hi c cs (inr h) ne = h.1

not_width : (a v w : ℕ) → a ≡ v → v ≢ w → a ≢ w
not_width a v w e ne f = ne (sym e ∙ f)

-- The ranges that are left behind a column.
next_ranges :
    (r : Ranges) (c : Column) (cs : List Column)
    → AreRanges r
    → ArePlaced r (c ∷ cs)
    → IsWidth c.cb
    → (r' : Ranges) × AreRanges r' × ArePlaced r' cs × IsAhead r' c
unfolding IsWidth IsAhead
next_ranges r c cs v h width =
    let le4 = placed_le 4 r.lo4 r.hi4 (c ∷ cs) h.p4 in
    let le2 = placed_le 2 r.lo2 r.hi2 (c ∷ cs) h.p2 in
    elim width [
      | inl e ↦
          let at = here 8 r.lo8 r.hi8 c cs h.p8 e in
          (
            record r { lo8 = r.lo8 + 8 },
            record { eight = v.eight; four = v.four; two = v.two },
            record {
              p8 = at.1;
              p4 = away 4 r.lo4 r.hi4 c cs h.p4 (not_width c.cb 8 4 e (omega arith));
              p2 = away 2 r.lo2 r.hi2 c cs h.p2 (not_width c.cb 8 2 e (omega arith));
              p1 = away 1 r.lo1 r.hi1 c cs h.p1 (not_width c.cb 8 1 e (omega arith));
            },
            inl (e, omega (arith, at.0), placed_le 8 _ r.hi8 cs at.1, le4, le2),
          )
      | inr (inl e) ↦
          let at = here 4 r.lo4 r.hi4 c cs h.p4 e in
          (
            record r { lo4 = r.lo4 + 4 },
            record { eight = omega (arith, v.eight); four = v.four; two = v.two },
            record {
              p8 = away 8 r.lo8 r.hi8 c cs h.p8 (not_width c.cb 4 8 e (omega arith));
              p4 = at.1;
              p2 = away 2 r.lo2 r.hi2 c cs h.p2 (not_width c.cb 4 2 e (omega arith));
              p1 = away 1 r.lo1 r.hi1 c cs h.p1 (not_width c.cb 4 1 e (omega arith));
            },
            inr (
                inl (
                  e,
                  omega (arith, at.0),
                  omega (arith, at.0, v.eight),
                  placed_le 4 _ r.hi4 cs at.1,
                  le2,
                )),
          )
      | inr (inr (inl e)) ↦
          let at = here 2 r.lo2 r.hi2 c cs h.p2 e in
          (
            record r { lo2 = r.lo2 + 2 },
            record { eight = v.eight; four = omega (arith, v.four); two = v.two },
            record {
              p8 = away 8 r.lo8 r.hi8 c cs h.p8 (not_width c.cb 2 8 e (omega arith));
              p4 = away 4 r.lo4 r.hi4 c cs h.p4 (not_width c.cb 2 4 e (omega arith));
              p2 = at.1;
              p1 = away 1 r.lo1 r.hi1 c cs h.p1 (not_width c.cb 2 1 e (omega arith));
            },
            inr (
                inr (
                  inl (
                    e,
                    omega (arith, at.0),
                    omega (arith, at.0, v.four),
                    omega (arith, at.0, v.eight, v.four, le4),
                    placed_le 2 _ r.hi2 cs at.1,
                  ))),
          )
      | inr (inr (inr e)) ↦
          let at = here 1 r.lo1 r.hi1 c cs h.p1 e in
          (
            record r { lo1 = r.lo1 + 1 },
            record { eight = v.eight; four = v.four; two = omega (arith, v.two) },
            record {
              p8 = away 8 r.lo8 r.hi8 c cs h.p8 (not_width c.cb 1 8 e (omega arith));
              p4 = away 4 r.lo4 r.hi4 c cs h.p4 (not_width c.cb 1 4 e (omega arith));
              p2 = away 2 r.lo2 r.hi2 c cs h.p2 (not_width c.cb 1 2 e (omega arith));
              p1 = at.1;
            },
            inr (
                inr (
                  inr (
                    e,
                    omega (arith, at.0),
                    omega (arith, at.0, v.two),
                    omega (arith, at.0, v.four, v.two, le2),
                    omega (arith, at.0, v.eight, v.four, v.two, le4, le2),
                  ))),
          )
    ]

-- Columns that stand in the ranges of their widths are apart from each other.
pub placed-AreApart :
    (r : Ranges) (cs : List Column)
    → AreRanges r
    → ArePlaced r cs
    → All (λ (c : Column). IsWidth c.cb) cs
    → AreApart cs
unfolding AreApart
placed-AreApart r [] v h ws = tt
placed-AreApart r (c ∷ cs) v h ws =
    let (r', v', h', ahead) = next_ranges r c cs v h ws.0 in
    (
      All-map (λ d. head-IsApart r' c d v' ahead) cs (in_range r' cs h' ws.1),
      placed-AreApart r' cs v' h' ws.1,
    )
