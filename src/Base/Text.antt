-- ===== src/Base/Text.antt =====
-- Text as a list of bytes: `std::string::find` and its kin, and the comparison of texts.
use Prim.Native.Char.{code}
use Prim.Native.String.{String}
use Prim.Native.Nat.{ℕ, suc}
use mathlib.Core.List.{List, [], ◌∷◌}
use mathlib.Core.Option.{Option, none, some}
use mathlib.Core.Bool.{Bool, true, false, ◌&&◌}
use imap2pst.Base.Tests.{◌==◌, if◌then◌else◌}
use imap2pst.Base.Lists.{length, drop}

-- The bytes of an ASCII text.
abbrev pub ascii : String → List ℕ
ascii String.[] = []
ascii (String.◌∷◌ c s) = code c ∷ ascii s

unfoldable pub same_text : List ℕ → List ℕ → Bool
same_text [] [] = true
same_text [] (d ∷ ds) = false
same_text (c ∷ cs) [] = false
same_text (c ∷ cs) (d ∷ ds) = (c == d) && same_text cs ds

unfoldable pub is_prefix : List ℕ → List ℕ → Bool
is_prefix [] text = true
is_prefix (c ∷ cs) [] = false
is_prefix (c ∷ cs) (d ∷ ds) = (c == d) && is_prefix cs ds

-- `find` of a byte in a text that begins at position `i`
unfoldable pub find_in : ℕ → List ℕ → ℕ → Option ℕ
find_in c [] i = none
find_in c (d ∷ ds) i = if d == c then some i else find_in c ds (suc i)

-- `s.find(c, i)`
abbrev pub find_byte : ℕ → List ℕ → ℕ → Option ℕ
find_byte c s i = find_in c (drop i s) i

unfoldable pub find_text_in : List ℕ → List ℕ → ℕ → Option ℕ
find_text_in part [] i = if is_prefix part [] then some i else none
find_text_in part (d ∷ ds) i =
    if is_prefix part (d ∷ ds) then some i else find_text_in part ds (suc i)

-- `s.find(part)`
abbrev pub find_text : List ℕ → List ℕ → Option ℕ
find_text part s = find_text_in part s 0

unfoldable pub rfind_in : ℕ → List ℕ → ℕ → Option ℕ → Option ℕ
rfind_in c [] i found = found
rfind_in c (d ∷ ds) i found = rfind_in c ds (suc i) (if d == c then some i else found)

-- `s.rfind(c)`
abbrev pub rfind_byte : ℕ → List ℕ → Option ℕ
rfind_byte c s = rfind_in c s 0 none

-- A position, or the end of the text where there is none.
abbrev pub or_end : Option ℕ → List ℕ → ℕ
or_end none s = length s
or_end (some i) s = i
