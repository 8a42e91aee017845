-- ===== src/Pst/NameidMap/Keys.antt =====
-- Keys and GUIDs of src/pst/nameid_map.cpp: what their comparisons decide.
use imap2pst.Base.{
  ℕ, ◌+◌, ◌≡◌, refl, sym, ap, ap₂, ◌∙◌, arith, List, [], ◌∷◌, ◌++◌, none, some, true, false,
  Bool-cases, Option-cases, inl, inr, and_true, ◌==◌, ==→eq, length, length-append, u16,
}
use imap2pst.Base.Text.{same_text}
use imap2pst.Pst.NameidMap.{
  Guid, guid_bytes, bytes_lt, guid_lt, same_guid, find_guid, index_in, guid_index, ps_mapi,
  ps_public_strings, NameKey, by_string, by_numeric, same_key, NameIdMap,
}

same_text→eq : (s t : List ℕ) → same_text s t ≡ true → s ≡ t
unfolding same_text
same_text→eq [] [] e = refl
same_text→eq [] (d ∷ ds) e = absurd (cc)
same_text→eq (c ∷ cs) [] e = absurd (cc)
same_text→eq (c ∷ cs) (d ∷ ds) e =
    let both = and_true (c == d) (same_text cs ds) e in
    ap₂ (λ a t. a ∷ t) (==→eq c d both.0) (same_text→eq cs ds both.1)

same_text_self : (s : List ℕ) → same_text s s ≡ true
unfolding same_text
same_text_self [] = refl
same_text_self (c ∷ cs) = ground (arith, same_text_self cs)

pub same_key→eq : (k l : NameKey) → same_key k l ≡ true → k ≡ l
unfolding same_key
same_key→eq (by_string g s) (by_string h t) e =
    let both = and_true (g == h) (same_text s t) e in
    ap₂ (λ a b. by_string a b) (==→eq g h both.0) (same_text→eq s t both.1)
same_key→eq (by_numeric g n) (by_numeric h m) e =
    let both = and_true (g == h) (n == m) e in
    ap₂ (λ a b. by_numeric a b) (==→eq g h both.0) (==→eq n m both.1)
same_key→eq (by_string g s) (by_numeric h m) e = absurd (cc)
same_key→eq (by_numeric g n) (by_string h t) e = absurd (cc)

pub same_key_self : (k : NameKey) → same_key k k ≡ true
unfolding same_key
same_key_self (by_string g s) = ground (arith, same_text_self s)
same_key_self (by_numeric g n) = ground arith

bytes_lt_self : (s : List ℕ) → bytes_lt s s ≡ false
unfolding bytes_lt
bytes_lt_self [] = refl
bytes_lt_self (c ∷ cs) = ground (arith, bytes_lt_self cs)

same_guid_self : (g : Guid) → same_guid g g ≡ true
unfolding same_guid guid_lt
same_guid_self g = rw (bytes_lt_self (guid_bytes g)) refl

find_guid-append :
    (i : ℕ) (g : Guid) (gs : List Guid)
    → find_guid i g gs ≡ none
    → find_guid i g (gs ++ (g ∷ [])) ≡ some (i + length gs)
unfolding find_guid
find_guid-append i g [] e = rw (same_guid_self g) (ap some (omega arith))
find_guid-append i g (h ∷ gs) e = elim (Bool-cases (same_guid h g)) [
  | inl found ↦ absurd (none_not_some (sym (rw found at e)))
  | inr other ↦ rw other (find_guid-append (i + 1) g gs (rw other at e) ∙ ap some (omega arith))
]
  where
    none_not_some : {A : Type 0} {a : A} → none ≡ some a → ⊥
    none_not_some e = absurd (cc)

-- A GUID that has its index keeps it, and nothing is added for it again.
index_in_again : (g : Guid) (gs : List Guid) → index_in g (index_in g gs).1 ≡ index_in g gs
unfolding index_in
index_in_again g gs = elim (Bool-cases (same_guid g ps_mapi)) [
  | inl mapi ↦ rw mapi refl
  | inr other ↦ elim (Bool-cases (same_guid g ps_public_strings)) [
    | inl public ↦ rw (other, public) refl
    | inr extra ↦ elim (Option-cases (find_guid 0 g gs)) [
      | inl new ↦
          let first : index_in g gs ≡ (u16 (2 + length (gs ++ (g ∷ []))), gs ++ (g ∷ [])) =
            rw (other, extra, new) refl in
          let second : index_in g (gs ++ (g ∷ [])) ≡ (u16 (3 + (0 + length gs)), gs ++ (g ∷ [])) =
            rw (other, extra, find_guid-append 0 g gs new) refl in
          ap (λ (r : ℕ × List Guid). index_in g r.1) first
          ∙ second
          ∙ ap (λ n. (u16 n, gs ++ (g ∷ []))) (omega (arith, length-append gs (g ∷ [])))
          ∙ sym first
      | inr old ↦
          let found : index_in g gs ≡ (u16 (3 + old.0), gs) = rw (other, extra, old.1) refl in
          ap (λ (r : ℕ × List Guid). index_in g r.1) found
    ]
  ]
]

pub guid_index_again :
    (g : Guid) (m m' : NameIdMap)
    → m'.extra_guids ≡ (guid_index g m).1.extra_guids
    → guid_index g m' ≡ ((guid_index g m).0, m')
unfolding guid_index
guid_index_again g m m' e =
    ap (λ (gs : List Guid). let r = index_in g gs in (r.0, record m' { extra_guids = r.1 })) e
    ∙ ap (λ (r : ℕ × List Guid). (r.0, record m' { extra_guids = r.1 }))
        (index_in_again g m.extra_guids)
    ∙ ap (λ (gs : List Guid). ((index_in g m.extra_guids).0, record m' { extra_guids = gs }))
        (sym e)
