-- ===== src/Pst/NameidMap/Ids.antt =====
-- The ids that `idForString` and `idForNumeric` of src/pst/nameid_map.cpp give out.
use imap2pst.Base.{
  ℕ, zero, suc, ◌+◌, ◌≤◌, ◌<◌, ◌≡◌, ◌≢◌, ◌⊎◌, refl, sym, ap, subst, ◌∙◌, arith, List, [], ◌∷◌, none,
  some, Bool-cases, Option-cases, inl, inr, leb, leb→gt, leb→le, tests, length, length-append, u16,
}
use imap2pst.Pst.NameidMap.{
  Guid, guid_index, NameKey, by_string, by_numeric, same_key, find_key, Entry, NameIdMap,
  first_named_id, max_names, fold_case, mint, mint_string, mint_numeric, find_or, id_for_string,
  id_for_numeric,
}
use imap2pst.Pst.NameidMap.Keys.{same_key→eq, same_key_self, guid_index_again}

-- The ids of a list of keys, the newest first: they count up from 0x8000, and `n` is their number.
unfoldable pub IsNumbered : List (NameKey × ℕ) → ℕ → Type 0
IsNumbered [] n = n ≡ 0
IsNumbered (e ∷ es) n = (m : ℕ) × (n ≡ suc m) × (e.1 ≡ first_named_id + m) × IsNumbered es m

pub record IsNameMap (m : NameIdMap) : Type 0 where
  pub numbered : IsNumbered m.ids (length m.entries)
  pub few : length m.entries ≤ max_names

found_id :
    (k : NameKey) (es : List (NameKey × ℕ)) (n i : ℕ)
    → IsNumbered es n
    → find_key k es ≡ some i
    → (first_named_id ≤ i) × (i < first_named_id + n)
unfolding IsNumbered find_key
found_id k [] n i v e = absurd (cc)
found_id k (f ∷ es) n i v e = elim (Bool-cases (same_key f.0 k)) [
  | inl same ↦
      let here : some f.1 ≡ some i = rw same at e in
      let at : f.1 ≡ i = cc in (omega (arith, at, v.2), omega (arith, at, v.2, v.1))
  | inr other ↦
      let there = found_id k es v.0 i v.3 (rw other at e) in (there.0, omega (arith, there.1, v.1))
]

clash : (id i m : ℕ) → id ≡ i → id ≡ first_named_id + m → i < first_named_id + m → ⊥
clash id i m e f h = omega arith

-- Different keys have different ids.
one_key :
    (k l : NameKey) (es : List (NameKey × ℕ)) (n i : ℕ)
    → IsNumbered es n
    → find_key k es ≡ some i
    → find_key l es ≡ some i
    → k ≡ l
unfolding IsNumbered find_key
one_key k l [] n i v e e' = absurd (cc)
one_key k l (f ∷ es) n i v e e' = elim (Bool-cases (same_key f.0 k)) [
  | inl same ↦ elim (Bool-cases (same_key f.0 l)) [
    | inl same' ↦ sym (same_key→eq f.0 k same) ∙ same_key→eq f.0 l same'
    | inr other' ↦
        let here : some f.1 ≡ some i = rw same at e in
        let there = found_id l es v.0 i v.3 (rw other' at e') in
        absurd (clash f.1 i v.0 (cc) v.2 there.1)
  ]
  | inr other ↦ elim (Bool-cases (same_key f.0 l)) [
    | inl same' ↦
        let here : some f.1 ≡ some i = rw same' at e' in
        let there = found_id k es v.0 i v.3 (rw other at e) in
        absurd (clash f.1 i v.0 (cc) v.2 there.1)
    | inr other' ↦ one_key k l es v.0 i v.3 (rw other at e) (rw other' at e')
  ]
]

-- The key is new, and the pair is what the end of `idForString` or `idForNumeric` gives.
record IsMinted (key : NameKey) (m : NameIdMap) (r : ℕ × NameIdMap) : Type 0 where
  id : r.0 ≡ first_named_id + length m.entries
  ids : r.1.ids ≡ (key, r.0) ∷ m.ids
  entries : length r.1.entries ≡ suc (length m.entries)
  guids : r.1.extra_guids ≡ m.extra_guids

mint-IsMinted :
    (key : NameKey) (entry : ℕ → Entry) (m : NameIdMap)
    → length m.entries < max_names
    → IsMinted key m (mint key entry m)
unfolding mint
mint-IsMinted key entry m few = record {
  id = omega arith;
  ids = refl;
  entries = omega (arith, length-append m.entries (entry (u16 (length m.entries)) ∷ []));
  guids = refl;
}

-- What `idForString` and `idForNumeric` do with a key once they have the GUID's index.
record IsNamed (key : NameKey) (m : NameIdMap) (r : ℕ × NameIdMap) : Type 0 where
  map : IsNameMap r.1
  full : r.0 ≡ 0 → length r.1.entries ≡ max_names
  found : 0 < r.0 → find_key key r.1.ids ≡ some r.0
  kept : (k : NameKey) (i : ℕ) → find_key k m.ids ≡ some i → find_key k r.1.ids ≡ some i
  guids : r.1.extra_guids ≡ m.extra_guids

find_key_new :
    (key : NameKey) (id : ℕ) (es : List (NameKey × ℕ)) → find_key key ((key, id) ∷ es) ≡ some id
unfolding find_key
find_key_new key id es = rw (same_key_self key) refl

find_key_old :
    (key k : NameKey) (id i : ℕ) (es : List (NameKey × ℕ))
    → find_key key es ≡ none
    → find_key k es ≡ some i
    → find_key k ((key, id) ∷ es) ≡ some i
unfolding find_key
find_key_old key k id i es new old = elim (Bool-cases (same_key key k)) [
  | inl same ↦ absurd (none_some (sym new ∙ ap (λ l. find_key l es) (same_key→eq key k same) ∙ old))
  | inr other ↦ rw other old
]
  where
    none_some : {A : Type 0} {a : A} → none ≡ some a → ⊥
    none_some e = absurd (cc)

find_or-IsNamed :
    (key : NameKey) (mint_new : NameIdMap → ℕ × NameIdMap) (m : NameIdMap)
    → IsNameMap m
    → (length m.entries < max_names → IsMinted key m (mint_new m))
    → IsNamed key m (find_or key mint_new m)
unfolding find_or IsNumbered
find_or-IsNamed key mint_new m v minted = elim (Option-cases (find_key key m.ids)) [
  | inr old ↦
      let range = found_id key m.ids (length m.entries) old.0 v.numbered old.1 in
      rw (find_or, old.1)
        (record {
          map = v;
          full = λ e. absurd (omega (arith, e, range.0));
          found = λ h. old.1;
          kept = λ k i e. e;
          guids = refl;
        })
  | inl new ↦ elim (Bool-cases (leb max_names (length m.entries))) [
    | inl full ↦
        rw (find_or, new, full)
          (record {
            map = v;
            full = λ e. omega (tests, leb→le _ _ full, v.few);
            found = λ h. absurd (omega arith);
            kept = λ k i e. e;
            guids = refl;
          })
    | inr free ↦
        let few : length m.entries < max_names = leb→gt _ _ free in
        let n = minted few in
        rw (find_or, new, free)
          (record {
            map = record {
              numbered =
                  subst (λ es. IsNumbered es (length (mint_new m).1.entries)) (sym n.ids)
                    (length m.entries, n.entries, n.id, v.numbered);
              few = omega (arith, n.entries, few);
            };
            full = λ e. absurd (omega (arith, e, n.id));
            found = λ h. ap (find_key key) n.ids ∙ find_key_new key (mint_new m).0 m.ids;
            kept = λ k i e. ap (find_key k) n.ids ∙ find_key_old key k (mint_new m).0 i m.ids new e;
            guids = n.guids;
          })
  ]
]

find_or_guids :
    (key : NameKey) (mint_new : NameIdMap → ℕ × NameIdMap) (m : NameIdMap)
    → (length m.entries < max_names → IsMinted key m (mint_new m))
    → (find_or key mint_new m).1.extra_guids ≡ m.extra_guids
unfolding find_or
find_or_guids key mint_new m minted = elim (Option-cases (find_key key m.ids)) [
  | inr old ↦ rw (find_or, old.1) refl
  | inl new ↦ elim (Bool-cases (leb max_names (length m.entries))) [
    | inl full ↦ rw (find_or, new, full) refl
    | inr free ↦ rw (find_or, new, free) (minted (leb→gt _ _ free)).guids
  ]
]

-- Once a key has been asked for, asking again changes nothing, and gives the same id.
find_or_again :
    (key : NameKey) (mint_new mint_again : NameIdMap → ℕ × NameIdMap) (m : NameIdMap)
    → (length m.entries < max_names → IsMinted key m (mint_new m))
    → find_or key mint_again (find_or key mint_new m).1 ≡ find_or key mint_new m
unfolding find_or
find_or_again key mint_new mint_again m minted = elim (Option-cases (find_key key m.ids)) [
  | inr old ↦
      let first : find_or key mint_new m ≡ (old.0, m) = rw (find_or, old.1) refl in
      ap (λ (r : ℕ × NameIdMap). find_or key mint_again r.1) first
      ∙ rw (find_or, old.1) refl
      ∙ sym first
  | inl new ↦ elim (Bool-cases (leb max_names (length m.entries))) [
    | inl full ↦
        let first : find_or key mint_new m ≡ (0, m) = rw (find_or, new, full) refl in
        ap (λ (r : ℕ × NameIdMap). find_or key mint_again r.1) first
        ∙ rw (find_or, new, full) refl
        ∙ sym first
    | inr free ↦
        let n = minted (leb→gt _ _ free) in
        let first : find_or key mint_new m ≡ mint_new m = rw (find_or, new, free) refl in
        let known : find_key key (mint_new m).1.ids ≡ some (mint_new m).0 =
          ap (find_key key) n.ids ∙ find_key_new key (mint_new m).0 m.ids in
        ap (λ (r : ℕ × NameIdMap). find_or key mint_again r.1) first
        ∙ rw (find_or, known) refl
        ∙ sym first
  ]
]

mint_string-IsMinted :
    (g : ℕ) (name : List ℕ) (m : NameIdMap)
    → length m.entries < max_names
    → IsMinted (by_string g (fold_case name)) m (mint_string g name m)
unfolding mint_string
mint_string-IsMinted g name m few =
    let minted =
      mint-IsMinted (by_string g (fold_case name)) _ (record m { string_stream = _ }) few in
    record { id = minted.id; ids = minted.ids; entries = minted.entries; guids = minted.guids }

mint_numeric-IsMinted :
    (g id : ℕ) (m : NameIdMap)
    → length m.entries < max_names
    → IsMinted (by_numeric g id) m (mint_numeric g id m)
unfolding mint_numeric
mint_numeric-IsMinted g id m few = mint-IsMinted (by_numeric g id) _ m few

guid_index-IsNameMap : (g : Guid) (m : NameIdMap) → IsNameMap m → IsNameMap (guid_index g m).1
unfolding guid_index
guid_index-IsNameMap g m v = record { numbered = v.numbered; few = v.few }

string-IsNamed :
    (g : Guid) (name : List ℕ) (m : NameIdMap)
    → IsNameMap m
    → IsNamed
        (by_string (guid_index g m).0 (fold_case name))
        (guid_index g m).1
        (id_for_string g name m)
unfolding id_for_string
string-IsNamed g name m v =
    find_or-IsNamed _ _ (guid_index g m).1 (guid_index-IsNameMap g m v)
      (mint_string-IsMinted (guid_index g m).0 name (guid_index g m).1)

numeric-IsNamed :
    (g : Guid) (id : ℕ) (m : NameIdMap)
    → IsNameMap m
    → IsNamed (by_numeric (guid_index g m).0 id) (guid_index g m).1 (id_for_numeric g id m)
unfolding id_for_numeric
numeric-IsNamed g id m v =
    find_or-IsNamed _ _ (guid_index g m).1 (guid_index-IsNameMap g m v)
      (mint_numeric-IsMinted (guid_index g m).0 id (guid_index g m).1)

-- Both ways to ask for an id keep the map well formed: at most 4096 names, whose ids count up from 0x8000 in the
-- order in which they were minted. An id is 0 only where the map has 4096 names.
pub id_for-IsNameMap :
    (g : Guid) (name : List ℕ) (id : ℕ) (m : NameIdMap)
    → IsNameMap m
    → IsNameMap (id_for_string g name m).1
      × IsNameMap (id_for_numeric g id m).1
      × (((id_for_string g name m).0 ≢ 0) ⊎ (length (id_for_string g name m).1.entries ≡ max_names))
      × (((id_for_numeric g id m).0 ≢ 0) ⊎ (length (id_for_numeric g id m).1.entries ≡ max_names))
id_for-IsNameMap g name id m v =
    let s = string-IsNamed g name m v in
    let n = numeric-IsNamed g id m v in (s.map, n.map, zero_or _ s.full, zero_or _ n.full)
  where
    zero_or : {P : Type 0} (n : ℕ) → (n ≡ 0 → P) → (n ≢ 0) ⊎ P
    zero_or zero f = inr (f refl)
    zero_or (suc n) f = inl (omega arith)

-- A name that has been asked for gets the same id again, in whatever case its ASCII letters are written, also
-- where the map is full; and the second call leaves the map as it is.
pub id_for_string-fold_case :
    (g : Guid) (name name' : List ℕ) (m : NameIdMap)
    → fold_case name ≡ fold_case name'
    → id_for_string g name' (id_for_string g name m).1 ≡ id_for_string g name m
unfolding id_for_string
id_for_string-fold_case g name name' m same =
    let w : ℕ = (guid_index g m).0 in
    let r = id_for_string g name m in
    let minted = mint_string-IsMinted w name (guid_index g m).1 in
    let indexed = guid_index_again g m r.1 (find_or_guids _ _ (guid_index g m).1 minted) in
    ap
      (λ (p : ℕ × NameIdMap). find_or (by_string p.0 (fold_case name')) (mint_string p.0 name') p.1)
      indexed
    ∙ ap (λ t. find_or (by_string w t) (mint_string w name') r.1) (sym same)
    ∙ find_or_again (by_string w (fold_case name)) (mint_string w name) (mint_string w name')
        (guid_index g m).1 minted

-- Two names that get the same id, one after the other, have the same GUID index and the same letters up to the
-- case of ASCII letters, unless the id is 0, which stands for a full map.
pub id_for_string_distinct :
    (g h : Guid) (name name' : List ℕ) (m : NameIdMap)
    → IsNameMap m
    → 0 < (id_for_string g name m).0
    → (id_for_string h name' (id_for_string g name m).1).0 ≡ (id_for_string g name m).0
    → ((guid_index g m).0 ≡ (guid_index h (id_for_string g name m).1).0)
      × (fold_case name ≡ fold_case name')
unfolding guid_index
id_for_string_distinct g h name name' m v named same =
    let first = string-IsNamed g name m v in
    let second = string-IsNamed h name' (id_for_string g name m).1 first.map in
    let one =
      one_key _ _ (id_for_string h name' (id_for_string g name m).1).1.ids _
        (id_for_string g name m).0 second.map.numbered (second.kept _ _ (first.found named))
        (second.found (omega (arith, same)) ∙ ap some same) in
    (ap (λ k. (key_parts k).0) one, ap (λ k. (key_parts k).1) one)
  where
    key_parts : NameKey → ℕ × List ℕ
    key_parts (by_string g s) = (g, s)
    key_parts (by_numeric g n) = (g, [])
