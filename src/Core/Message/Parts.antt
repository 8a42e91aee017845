-- ===== src/Core/Message/Parts.antt =====
-- `path` of src/core/message.cpp against the parts that a folder's name is joined from.
use imap2pst.Base.{
  ℕ, ◌≡◌, ◌≢◌, refl, sym, ap, ◌∙◌, arith, List, [], ◌∷◌, ◌++◌, true, false, ◌==◌, All, append_assoc,
  append-nil,
}
use imap2pst.Core.Message.{FolderInfo, push_part, path_loop, path}

-- The parts, one behind the other, with delimiters between them.
unfoldable pub join : ℕ → List (List ℕ) → List ℕ
join delimiter [] = []
join delimiter (p ∷ []) = p
join delimiter (p ∷ q ∷ parts) = p ++ (delimiter ∷ join delimiter (q ∷ parts))

-- The parts that are not empty.
unfoldable pub not_empty : List (List ℕ) → List (List ℕ)
not_empty [] = []
not_empty (p ∷ parts) = push_part p (not_empty parts)

-- A part without the delimiter.
abbrev pub IsPart : ℕ → List ℕ → Type 0
IsPart delimiter p = All (λ c. c ≢ delimiter) p

ordinary : (c d : ℕ) → c ≢ d → (c == d) ≡ false
ordinary c d h = ground arith

same : (d : ℕ) → (d == d) ≡ true
same d = ground arith

loop_char :
    (d : ℕ) (cur : List ℕ) (c : ℕ) (cs : List ℕ)
    → c ≢ d
    → path_loop d cur (c ∷ cs) ≡ path_loop d (cur ++ (c ∷ [])) cs
unfolding path_loop
loop_char d cur c cs h = rw (path_loop, ordinary c d h) refl

loop_delimiter :
    (d : ℕ) (cur cs : List ℕ) → path_loop d cur (d ∷ cs) ≡ push_part cur (path_loop d [] cs)
unfolding path_loop
loop_delimiter d cur cs = rw (path_loop, same d) refl

-- A part is gathered whole.
loop_part :
    (d : ℕ) (cur p rest : List ℕ)
    → IsPart d p
    → path_loop d cur (p ++ rest) ≡ path_loop d (cur ++ p) rest
loop_part d cur [] rest h = ap (λ t. path_loop d t rest) (sym (append-nil cur))
loop_part d cur (c ∷ cs) rest h =
    loop_char d cur c (cs ++ rest) h.0
    ∙ loop_part d (cur ++ (c ∷ [])) cs rest h.1
    ∙ ap (λ t. path_loop d t rest) (append_assoc cur (c ∷ []) cs)

loop-join :
    (d : ℕ) (parts : List (List ℕ))
    → All (IsPart d) parts
    → path_loop d [] (join d parts) ≡ not_empty parts
unfolding join not_empty path_loop push_part
loop-join d [] h = refl
loop-join d (p ∷ []) h = ap (path_loop d []) (sym (append-nil p)) ∙ loop_part d [] p [] h.0
loop-join d (p ∷ q ∷ parts) h =
    loop_part d [] p (d ∷ join d (q ∷ parts)) h.0
    ∙ loop_delimiter d p (join d (q ∷ parts))
    ∙ ap (push_part p) (loop-join d (q ∷ parts) h.1)

-- The path of a folder whose name is made of parts without the delimiter is those parts, the empty ones
-- left out: doubled, leading and trailing delimiters give no nameless folder. Without a delimiter the name
-- is one part.
pub path-join :
    (f : FolderInfo) (parts : List (List ℕ))
    → f.delimiter ≢ 0
    → All (IsPart f.delimiter) parts
    → f.full_name ≡ join f.delimiter parts
    → (path f ≡ not_empty parts)
      × (path (record f { delimiter = 0 }) ≡ not_empty (f.full_name ∷ []))
unfolding path not_empty
path-join f parts d h e = (
  rw (ordinary f.delimiter 0 d) (ap (path_loop f.delimiter []) e ∙ loop-join f.delimiter parts h),
  refl,
)
