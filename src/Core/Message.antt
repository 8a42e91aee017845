-- ===== src/Core/Message.antt =====
-- Headers and folder names of src/core/message.h and src/core/message.cpp. Text is a list of bytes.
pub mod Parts
use imap2pst.Base.{ℕ, List, [], ◌∷◌, ◌++◌, Bool, ◌==◌, if◌then◌else◌}

-- `RawHeader`
pub record RawHeader : Type 0 where
  pub name : List ℕ
  pub value : List ℕ

-- `FolderInfo`
pub record FolderInfo : Type 0 where
  pub full_name : List ℕ
  pub raw_name : List ℕ
  pub delimiter : ℕ
  pub selectable : Bool

-- `header_blob`, of the headers of a message
unfoldable pub header_blob : List RawHeader → List ℕ
header_blob [] = []
header_blob (h ∷ hs) = h.name ++ (0x3A ∷ 0x20 ∷ (h.value ++ (0x0D ∷ 0x0A ∷ header_blob hs)))

-- `if (!cur.empty()) parts.push_back(cur)`
unfoldable pub push_part : List ℕ → List (List ℕ) → List (List ℕ)
push_part [] parts = parts
push_part (c ∷ cs) parts = (c ∷ cs) ∷ parts

-- The loop of `path`: the parts that come from `cur` and the characters that are left.
unfoldable pub path_loop : ℕ → List ℕ → List ℕ → List (List ℕ)
path_loop delimiter cur [] = push_part cur []
path_loop delimiter cur (c ∷ cs) =
    if c == delimiter
    then push_part cur (path_loop delimiter [] cs)
    else path_loop delimiter (cur ++ (c ∷ [])) cs

-- `path`
unfoldable pub path : FolderInfo → List (List ℕ)
path f = if f.delimiter == 0 then push_part f.full_name [] else path_loop f.delimiter [] f.full_name

unfoldable pub last_or_empty : List (List ℕ) → List ℕ
last_or_empty [] = []
last_or_empty (p ∷ []) = p
last_or_empty (p ∷ q ∷ parts) = last_or_empty (q ∷ parts)

-- `leaf_name`
unfoldable pub leaf_name : FolderInfo → List ℕ
leaf_name f = last_or_empty (path f)
