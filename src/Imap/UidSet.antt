-- ===== src/Imap/UidSet.antt =====
-- `uidSet` of src/imap/imap_parse.cpp: a list of UIDs as an IMAP sequence set. Text is a list of bytes.
pub mod Reader
pub mod Digits
pub mod Runs
pub mod Reads
use imap2pst.Base.{
  ℕ, zero, suc, ◌+◌, ◌/◌, ◌%◌, List, [], ◌∷◌, ◌++◌, ltb, ◌==◌, if◌then◌else◌, length, u32,
}

-- `std::to_string` of a 32-bit number: its decimal digits, ten at most, put in front of `text`.
unfoldable pub put_digits : ℕ → ℕ → List ℕ → List ℕ
put_digits zero n text = text
put_digits (suc fuel) n text =
    let longer = put_digits fuel (n / 10) ((48 + n % 10) ∷ text) in
    if n / 10 == 0 then (48 + n % 10) ∷ text else longer

unfoldable pub to_string : ℕ → List ℕ
to_string n = put_digits 10 n []

-- The inner loop: the last UID of the run that goes on behind `last`, and the UIDs behind the run.
unfoldable pub run : ℕ → List ℕ → ℕ × List ℕ
run last [] = (last, [])
run last (u ∷ us) = let longer = run u us in if u == u32 (last + 1) then longer else (last, u ∷ us)

-- `if (!out.empty()) out.push_back(',')`
unfoldable pub put_comma : List ℕ → List ℕ
put_comma [] = []
put_comma (c ∷ cs) = (c ∷ cs) ++ (0x2C ∷ [])

-- The end of a run of more than one UID.
unfoldable pub put_last : List ℕ → ℕ → List ℕ → List ℕ
put_last us last rest = if ltb (length rest) (length us) then 0x3A ∷ to_string last else []

-- The outer loop; the fuel is the number of UIDs.
unfoldable pub put_runs : ℕ → List ℕ → List ℕ → List ℕ
put_runs zero out us = out
put_runs (suc fuel) out [] = out
put_runs (suc fuel) out (u ∷ us) =
    let (last, rest) = run u us in
    put_runs fuel ((put_comma out ++ to_string u) ++ put_last us last rest) rest

-- `uidSet`
unfoldable pub uid_set : List ℕ → List ℕ
uid_set uids = put_runs (length uids) [] uids
