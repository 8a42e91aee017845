-- ===== src/Pst/Run.antt =====
-- Steps of the LTP layer (src/pst/heap.h, ltp.cpp, streaming_table.cpp) on a state of any type: a result or
-- an error, and the new state, which an error keeps too.
use imap2pst.Base.{◌≡◌, ap}
use imap2pst.Pst.Ndb.State.{Result, ok, err, PstError}

abbrev pub Run : Type 0 → Type 0 → Type 0
Run S A = S → Result A × S

infixl 5 ◌>>=◌ ◌>>◌
abbrev pub ◌>>=◌ : {S A B : Type 0} → Run S A → (A → Run S B) → Run S B
◌>>=◌ m f s = let (r, s') = m s in elim r [ ok a ↦ f a s' | err e ↦ (err e, s') ]

abbrev pub ◌>>◌ : {S A B : Type 0} → Run S A → Run S B → Run S B
m >> k = m >>= λ _. k

abbrev pub return : {S A : Type 0} → A → Run S A
return a s = (ok a, s)

abbrev pub throw : {S A : Type 0} → PstError → Run S A
throw e s = (err e, s)

-- A step on one part of the state, with the way to read the part and to put it back.
abbrev pub on_part : {S T A : Type 0} → (S → T) → (T → S → S) → Run T A → Run S A
on_part get put m s = let (r, t) = m (get s) in (r, put t s)

module _ {S A B : Type 0} (m : Run S A) (f : A → Run S B) {s s' : S} where
  pub bind_ok : {a : A} → m s ≡ (ok a, s') → (m >>= f) s ≡ f a s'
  bind_ok e = ap (λ p. elim p.0 as (λ _. Result B × S) [ ok a ↦ f a p.1 | err x ↦ (err x, p.1) ]) e
