-- ===== src/Base/Sort.antt =====
-- `std::sort` by a number. Entries of one key may come in any order there, and keep theirs here.
use Prim.Native.Nat.{ℕ}
use mathlib.Core.List.{List, [], ◌∷◌}
use imap2pst.Base.Tests.{leb, if◌then◌else◌}

module _ {ℓ} {A : Type ℓ} where
  unfoldable pub insert_by : (A → ℕ) → A → List A → List A
  insert_by key e [] = e ∷ []
  insert_by key e (f ∷ fs) = if leb (key e) (key f) then e ∷ f ∷ fs else f ∷ insert_by key e fs

  unfoldable pub sort_by : (A → ℕ) → List A → List A
  sort_by key [] = []
  sort_by key (e ∷ es) = insert_by key e (sort_by key es)
