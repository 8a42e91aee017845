-- ===== src/Imap/UidSet/Reader.antt =====
-- A server's view of the sequence sets that `uidSet` of src/imap/imap_parse.cpp writes: numbers and
-- ranges of numbers with commas between them.
use imap2pst.Base.{ℕ, zero, suc, ◌+◌, ◌-◌, ◌*◌, List, [], ◌∷◌, ◌++◌, ◌==◌, if◌then◌else◌, length}
use imap2pst.Imap.Strings.{is_digit}

-- The number whose digits come next, behind digits worth `n`, and the text behind it.
unfoldable pub read_number : ℕ → List ℕ → ℕ × List ℕ
read_number n [] = (n, [])
read_number n (c ∷ cs) =
    let longer = read_number (n * 10 + (c - 48)) cs in if is_digit c then longer else (n, c ∷ cs)

unfoldable pub count_up : ℕ → ℕ → List ℕ
count_up zero first = []
count_up (suc left) first = first ∷ count_up left (suc first)

-- The numbers from `first` to `last`.
abbrev pub range : ℕ → ℕ → List ℕ
range first last = count_up (last + 1 - first) first

-- What may stand behind the first number of an item: the end of its range.
unfoldable pub read_last : ℕ → List ℕ → ℕ × List ℕ
read_last first [] = (first, [])
read_last first (c ∷ cs) = if c == 0x3A then read_number 0 cs else (first, c ∷ cs)

-- The items of a set. Each takes at least one byte of the text, the length of which is the fuel.
unfoldable pub read_items : ℕ → List ℕ → List ℕ
read_items zero text = []
read_items (suc fuel) [] = []
read_items (suc fuel) (c ∷ cs) =
    let (first, behind) = read_number 0 (if c == 0x2C then cs else c ∷ cs) in
    let (last, rest) = read_last first behind in range first last ++ read_items fuel rest

unfoldable pub read_set : List ℕ → List ℕ
read_set text = read_items (length text) text
