-- ===== src/Imap/UidSet/Runs.antt =====
-- The runs that `uidSet` of src/imap/imap_parse.cpp finds, and the text that it writes for them.
use imap2pst.Base.{
  ℕ, zero, suc, ◌+◌, ◌-◌, ◌^◌, ◌≤◌, ◌<◌, ◌≡◌, refl, sym, ap, ◌∙◌, arith, List, [], ◌∷◌, ◌++◌,
  Bool-cases, inl, inr, ◌==◌, ==→eq, length, u32, All, append_assoc, append-nil,
}
use imap2pst.Imap.UidSet.{to_string, run, put_comma, put_last, put_runs, uid_set}
use imap2pst.Imap.UidSet.Reader.{count_up, range}
use imap2pst.Imap.UidSet.Digits.{to_string-IsNumber}

-- A UID of the protocol: 32 bits, not zero.
pub record IsUid (u : ℕ) : Type 0 where
  pub positive : 0 < u
  pub small : u < 2 ^ 32

-- What the inner loop finds behind `u`.
pub record IsRun (u : ℕ) (us : List ℕ) (found : ℕ × List ℕ) : Type 0 where
  pub ascending : u ≤ found.0
  pub parts : u ∷ us ≡ range u found.0 ++ found.1
  pub single : length us ≤ length found.1 → found.0 ≡ u
  pub shorter : length found.1 ≤ length us
  pub last_small : found.0 < 2 ^ 32
  pub others : All IsUid found.1

no-IsRun : (u : ℕ) (us : List ℕ) → u < 2 ^ 32 → All IsUid us → IsRun u us (u, us)
unfolding count_up
no-IsRun u us small h = record {
  ascending = omega arith;
  parts = ap (λ k. count_up k u ++ us) {x = 1} (omega arith);
  single = λ _. refl;
  shorter = omega arith;
  last_small = small;
  others = h;
}

longer-IsRun :
    (u v : ℕ) (vs : List ℕ) (found : ℕ × List ℕ)
    → v ≡ suc u
    → IsRun v vs found
    → IsRun u (v ∷ vs) found
unfolding count_up
longer-IsRun u v vs (last, rest) next r = record {
  ascending = omega (arith, r.ascending);
  parts =
      ap (λ t. u ∷ t) (r.parts ∙ ap (λ w. count_up (last + 1 - v) w ++ rest) next)
      ∙ ap (λ k. count_up k u ++ rest) {x = suc (last + 1 - v)} (omega (arith, r.ascending));
  single = λ h. absurd (omega (arith, r.shorter));
  shorter = omega (arith, r.shorter);
  last_small = r.last_small;
  others = r.others;
}

pub run-IsRun : (us : List ℕ) (u : ℕ) → u < 2 ^ 32 → All IsUid us → IsRun u us (run u us)
unfolding run
run-IsRun [] u small h = no-IsRun u [] small tt
run-IsRun (v ∷ vs) u small h = elim (Bool-cases (v == u32 (u + 1))) [
  | inl next ↦ rw next (
      longer-IsRun u v vs (run v vs)
        (omega (arith, ==→eq v (u32 (u + 1)) next, h.0.positive, h.0.small))
        (run-IsRun vs v h.0.small h.1))
  | inr apart ↦ rw apart (no-IsRun u (v ∷ vs) small h)
]

-- What is written for the UIDs behind a first run.
unfoldable pub more_runs : ℕ → List ℕ → List ℕ
more_runs zero us = []
more_runs (suc fuel) [] = []
more_runs (suc fuel) (u ∷ us) =
    let found = run u us in
    0x2C ∷ (to_string u ++ (put_last us found.0 found.1 ++ more_runs fuel found.1))

put_runs-more_runs :
    (fuel c : ℕ) (cs us : List ℕ) → put_runs fuel (c ∷ cs) us ≡ (c ∷ cs) ++ more_runs fuel us
unfolding put_runs more_runs put_comma
put_runs-more_runs zero c cs us = sym (append-nil (c ∷ cs))
put_runs-more_runs (suc fuel) c cs [] = sym (append-nil (c ∷ cs))
put_runs-more_runs (suc fuel) c cs (u ∷ us) =
    let found = run u us in
    let p = put_last us found.0 found.1 in
    let rest = more_runs fuel found.1 in
    put_runs-more_runs fuel c (((cs ++ (0x2C ∷ [])) ++ to_string u) ++ p) found.1
    ∙ ap (λ t. c ∷ t)
        (append_assoc ((cs ++ (0x2C ∷ [])) ++ to_string u) p rest
          ∙ append_assoc (cs ++ (0x2C ∷ [])) (to_string u) (p ++ rest)
          ∙ append_assoc cs (0x2C ∷ []) (to_string u ++ (p ++ rest)))

pub uid_set-more_runs :
    (u : ℕ) (us : List ℕ)
    → uid_set (u ∷ us)
      ≡ to_string u ++ (put_last us (run u us).0 (run u us).1 ++ more_runs (length us) (run u us).1)
unfolding uid_set put_runs put_comma
uid_set-more_runs u us =
    let number = to_string-IsNumber u in
    let found = run u us in
    let p = put_last us found.0 found.1 in
    ap (λ t. put_runs (length us) (t ++ p) found.1) number.whole
    ∙ put_runs-more_runs (length us) number.first (number.more ++ p) found.1
    ∙ ap (λ t. number.first ∷ t) (append_assoc number.more p (more_runs (length us) found.1))
    ∙ ap (λ t. t ++ (p ++ more_runs (length us) found.1)) (sym number.whole)
