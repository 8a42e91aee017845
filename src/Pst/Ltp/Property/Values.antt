-- ===== src/Pst/Ltp/Property/Values.antt =====
-- The values of a `PropertyContext` of src/pst/ltp.cpp, looked up by property id.
use imap2pst.Base.{
  ℕ, suc, max, ◌≤◌, ◌≡◌, refl, sym, ap, subst, ◌∙◌, arith, [], ◌∷◌, Option, none, some, true, false,
  Bool-cases, inl, inr, ◌==◌, ==→eq, if◌then◌else◌,
}
use imap2pst.Pst.Format.{tag_id}
use imap2pst.Pst.Ltp.Property.{Value, PropertyContext, put_value, has}

-- The value of a property id.
unfoldable pub find_value : ℕ → PropertyContext → Option Value
find_value id [] = none
find_value id (v ∷ vs) = let rest = find_value id vs in if tag_id v.tag == id then some v else rest

-- How many values have an id.
unfoldable pub count_id : ℕ → PropertyContext → ℕ
count_id id [] = 0
count_id id (v ∷ vs) = if tag_id v.tag == id then suc (count_id id vs) else count_id id vs

put_same :
    (tag : ℕ) (v w : Value) (ws : PropertyContext)
    → (tag_id w.tag == tag_id tag) ≡ true
    → put_value tag v (w ∷ ws) ≡ record v { tag = tag } ∷ ws
unfolding put_value
put_same tag v w ws e = rw (put_value, e) refl

put_other :
    (tag : ℕ) (v w : Value) (ws : PropertyContext)
    → (tag_id w.tag == tag_id tag) ≡ false
    → put_value tag v (w ∷ ws) ≡ w ∷ put_value tag v ws
unfolding put_value
put_other tag v w ws e = rw (put_value, e) refl

find-put_value :
    (tag id : ℕ) (v : Value) (pc : PropertyContext)
    → find_value id (put_value tag v pc)
      ≡ (if tag_id tag == id then some (record v { tag = tag }) else find_value id pc)
unfolding find_value put_value
find-put_value tag id v [] = refl
find-put_value tag id v (w ∷ ws) = elim (Bool-cases (tag_id w.tag == tag_id tag)) [
  | inl same ↦ ap (find_value id) (put_same tag v w ws same) ∙ ground (arith, ==→eq _ _ same)
  | inr other ↦
      ap (find_value id) (put_other tag v w ws other) ∙ ground (arith, find-put_value tag id v ws)
]

count-put_value :
    (tag id : ℕ) (v : Value) (pc : PropertyContext)
    → count_id id (put_value tag v pc)
      ≡ (if tag_id tag == id then max 1 (count_id id pc) else count_id id pc)
unfolding count_id put_value
count-put_value tag id v [] = ground arith
count-put_value tag id v (w ∷ ws) = elim (Bool-cases (tag_id w.tag == tag_id tag)) [
  | inl same ↦ ap (count_id id) (put_same tag v w ws same) ∙ ground (arith, ==→eq _ _ same)
  | inr other ↦
      ap (count_id id) (put_other tag v w ws other) ∙ ground (arith, count-put_value tag id v ws)
]

has-put_value : (tag : ℕ) (v : Value) (pc : PropertyContext) → has tag (put_value tag v pc) ≡ true
unfolding has put_value
has-put_value tag v [] = ground arith
has-put_value tag v (w ∷ ws) = elim (Bool-cases (tag_id w.tag == tag_id tag)) [
  | inl same ↦ ap (has tag) (put_same tag v w ws same) ∙ ground arith
  | inr other ↦ ap (has tag) (put_other tag v w ws other) ∙ ground (arith, has-put_value tag v ws)
]

-- After `put` the property has the value that was put, and every other property the value that it had; `has` says
-- so; and no property has two values where none had two before.
pub put_value-find_value :
    (tag id : ℕ) (v : Value) (pc : PropertyContext)
    → count_id id pc ≤ 1
    → (find_value id (put_value tag v pc)
        ≡ (if tag_id tag == id then some (record v { tag = tag }) else find_value id pc))
      × (has tag (put_value tag v pc) ≡ true)
      × (count_id id (put_value tag v pc) ≤ 1)
put_value-find_value tag id v pc one = (
  find-put_value tag id v pc,
  has-put_value tag v pc,
  subst (λ n. n ≤ 1) (sym (count-put_value tag id v pc)) (ground arith),
)
