-- ===== src/Scripts/Markets/Laws.antt =====
-- About `parseBootstrapMarkets` of bootstrap.ts.
use easyclaw.Base.{
  ◌≡◌, refl, sym, ap, subst, ◌>>=◌, ◌∙◌, ◌≢◌, inl, inr, Bool, true, false, not, some, List, [], ◌∷◌,
  arith, Bool-cases, filter, map, any, All, Text, text, trim, is_blank, ok, >>=-eq-ok, traverse,
}
use easyclaw.Scripts.Defaults.{Market, markets}
use easyclaw.Scripts.Platform.{Numbers}
use easyclaw.Scripts.Env.{Env, list_items}
use easyclaw.Scripts.Markets.{
  parse_market_id, id_set, has_id, is_selected, checked_selection, select_markets,
  parse_bootstrap_markets,
}

-- The elements that a filter keeps meet its test; those that it drops do not.
filter-All {ℓ} : {A : Type ℓ} (p : A → Bool) (xs : List A) → All (λ x. p x ≡ true) (filter p xs)
filter-All p [] = tt
filter-All p (x ∷ xs) = elim (Bool-cases (p x)) [
  | inl keep ↦ rw (keep, filter) (keep, filter-All p xs)
  | inr drop ↦ rw (drop, filter) (filter-All p xs)
]

filter_empty {ℓ} :
    {A : Type ℓ} (p : A → Bool) (xs : List A) → filter p xs ≡ [] → All (λ x. p x ≡ false) xs
filter_empty p [] e = tt
filter_empty p (x ∷ xs) e = elim (Bool-cases (p x)) [
  | inl keep ↦ cc (rw (keep, filter) at e)
  | inr drop ↦ (drop, filter_empty p xs (rw (drop, filter) at e))
]

module _ (n : Numbers) where
  open n use {Num, number, is_integer, is_positive, num_eq, of_ℕ}

  -- Equal numbers compare alike with a third.
  abbrev pub Congruent : Type 0
  Congruent = (i j k : Num) → num_eq i j ≡ true → num_eq i k ≡ num_eq j k

  -- A test that equal numbers answer alike.
  abbrev Respects : (Num → Bool) → Type 0
  Respects p = (i j : Num) → num_eq i j ≡ true → p i ≡ p j

  All-drop :
      (p : Num → Bool) (i : Num) (ids : List Num)
      → Respects p
      → p i ≡ true
      → All (λ j. p j ≡ true) (filter (λ j. not (num_eq i j)) ids)
      → All (λ j. p j ≡ true) ids
  All-drop p i [] respects h rest = tt
  All-drop p i (j ∷ ids) respects h rest = elim (Bool-cases (num_eq i j)) [
    | inl same ↦
        (rw (← respects i j same) h, All-drop p i ids respects h (rw (same, filter) at rest))
    | inr other ↦
        let kept : All (λ j. p j ≡ true) (j ∷ filter (λ j. not (num_eq i j)) ids) =
          rw (other, filter) at rest in
        (kept.0, All-drop p i ids respects h kept.1)
  ]

  All-id_set :
      (p : Num → Bool) (ids : List Num)
      → Respects p
      → All (λ j. p j ≡ true) (id_set n ids)
      → All (λ j. p j ≡ true) ids
  unfolding id_set
  All-id_set p [] respects h = tt
  All-id_set p (i ∷ ids) respects (here, rest) =
      (here, All-id_set p ids respects (All-drop p i (id_set n ids) respects here rest))

  any-drop :
      (p : Num → Bool) (i : Num) (ids : List Num)
      → Respects p
      → p i ≡ false
      → any p (filter (λ j. not (num_eq i j)) ids) ≡ any p ids
  any-drop p i [] respects h = refl
  any-drop p i (j ∷ ids) respects h = elim (Bool-cases (num_eq i j)) [
    | inl same ↦ rw (same, filter, ← respects i j same, h) (any-drop p i ids respects h)
    | inr other ↦ rw (other, filter, any-drop p i ids respects h)
  ]

  any-id_set : (p : Num → Bool) (ids : List Num) → Respects p → any p (id_set n ids) ≡ any p ids
  unfolding id_set
  any-id_set p [] respects = refl
  any-id_set p (i ∷ ids) respects = elim (Bool-cases (p i)) [
    | inl yes_i ↦ rw yes_i
    | inr no_i ↦ rw (no_i, any-drop p i (id_set n ids) respects no_i) (any-id_set p ids respects)
  ]

  filter_ext :
      (p q : Market → Bool) (ms : List Market)
      → ((m : Market) → p m ≡ q m)
      → filter p ms ≡ filter q ms
  filter_ext p q [] h = refl
  filter_ext p q (m ∷ ms) h = rw (h m, filter_ext p q ms h)

  -- `selected` is what the ids ask for: the markets of the table with a requested id, in the
  -- table's order, and every requested id has its market.
  pub record IsSelection (ids : List Num) (selected : List Market) : Type 0 where
    pub nonempty : ids ≢ []
    pub listed : selected ≡ filter (has_id n ids) markets
    pub found : All (λ i. is_selected n selected i ≡ true) ids

  not-false : (b : Bool) → not b ≡ false → b ≡ true
  not-false true h = refl
  not-false false h = cc

  All-not :
      (p : Num → Bool) (ids : List Num)
      → All (λ j. not (p j) ≡ false) ids
      → All (λ j. p j ≡ true) ids
  All-not p [] h = tt
  All-not p (i ∷ ids) h = (not-false (p i) h.0, All-not p ids h.1)

  is_selected-Respects : Congruent → (ms : List Market) → Respects (is_selected n ms)
  is_selected-Respects congr [] i j e = refl
  is_selected-Respects congr (m ∷ ms) i j e =
      rw (congr i j (of_ℕ m.market_id) e, is_selected-Respects congr ms i j e)

  checked_selection-eq-ok :
      (selected : List Market) (missing : List Num) {result : List Market}
      → checked_selection n selected missing ≡ ok result
      → (missing ≡ []) × (selected ≡ result)
  unfolding checked_selection
  checked_selection-eq-ok selected [] e = ground arith
  checked_selection-eq-ok selected (j ∷ missing) e = cc

  select_markets-IsSelection :
      (ids : List Num) {selected : List Market}
      → select_markets n ids ≡ ok selected
      → IsSelection ids selected
  unfolding select_markets
  select_markets-IsSelection [] e = cc
  select_markets-IsSelection (i ∷ ids) e =
      let requested = i ∷ ids in
      let chosen = filter (has_id n requested) markets in
      let (complete, same) =
        checked_selection-eq-ok chosen (filter (λ j. not (is_selected n chosen j)) requested) e in
      record {
        nonempty = λ h. cc;
        listed = sym same;
        found =
            subst (λ s. All (λ j. is_selected n s j ≡ true) requested) same
              (All-not (is_selected n chosen) requested
                (filter_empty (λ j. not (is_selected n chosen j)) requested complete));
      }

  -- From the set back to the items, of which it drops the repeated ones.
  IsSelection-id_set :
      Congruent
      → (ids : List Num) {selected : List Market} → IsSelection (id_set n ids) selected
      → IsSelection ids selected
  IsSelection-id_set congr ids {selected} s = record {
    nonempty = λ h. s.nonempty (rw h (unfold id_set in refl));
    listed =
        s.listed
        ∙ filter_ext (has_id n (id_set n ids)) (has_id n ids) markets (λ m.
          any-id_set (λ i. num_eq i (of_ℕ m.market_id)) ids
            (λ i j e. congr i j (of_ℕ m.market_id) e));
    found = All-id_set (is_selected n selected) ids (is_selected-Respects congr selected) s.found;
  }

  parse_market_id-eq-ok :
      (item : Text) {i : Num}
      → parse_market_id n item ≡ ok i
      → (i ≡ number item) × (is_integer i ≡ true) × (is_positive i ≡ true)
  unfolding parse_market_id
  parse_market_id-eq-ok item {i} e = ground arith

  parsed_ids :
      (items : List Text) {ids : List Num}
      → traverse (parse_market_id n) items ≡ ok ids
      → (ids ≡ map number items) × All (λ i. (is_integer i ≡ true) × (is_positive i ≡ true)) ids
  unfolding traverse
  parsed_ids [] {ids} e = let same : ids ≡ [] = cc in (same, rw same tt)
  parsed_ids (item ∷ items) {ids} e =
      let (i, here, rest) =
        >>=-eq-ok (parse_market_id n item)
          (λ j. do js ← traverse (parse_market_id n) items; ok (j ∷ js)) e in
      let (js, later, made) = >>=-eq-ok (traverse (parse_market_id n) items) _ rest in
      let (as_read, integer, positive) = parse_market_id-eq-ok item here in
      let (same, valid) = parsed_ids items later in
      let whole : i ∷ js ≡ ids = cc in
      (
        sym whole ∙ ap (λ l. i ∷ l) same ∙ ap (λ j. j ∷ map number items) as_read,
        subst (All (λ j. (is_integer j ≡ true) × (is_positive j ≡ true))) whole
            ((integer, positive), valid),
      )

  -- When BOOTSTRAP_MARKET_IDS is set, and not to blanks, and the call succeeds, every item between the
  -- commas was a positive integer, there was at least one, and the result is exactly the markets of the
  -- table whose id was asked for, in the table's order, none of the ids being unknown. Equal numbers are
  -- taken to compare alike with a third.
  pub parse_bootstrap_markets-IsSelection :
      Congruent
      → (env : Env) (raw : Text) {selected : List Market}
      → env (text "BOOTSTRAP_MARKET_IDS") ≡ some raw
      → is_blank raw ≡ false
      → parse_bootstrap_markets n env ≡ ok selected
      → (ids : List Num) × (ids ≡ map number (list_items (trim raw)))
        × All (λ i. (is_integer i ≡ true) × (is_positive i ≡ true)) ids
        × IsSelection ids selected
  unfolding parse_bootstrap_markets
  parse_bootstrap_markets-IsSelection congr env raw {selected} is_set filled e =
      let (ids, parsed, chosen) =
        >>=-eq-ok (traverse (parse_market_id n) (list_items (trim raw)))
          (λ is. select_markets n (id_set n is))
          (rw (is_set, parse_bootstrap_markets, filled) at e) in
      let (same, valid) = parsed_ids (list_items (trim raw)) parsed in
      (
        ids,
        same,
        valid,
        IsSelection-id_set congr ids (select_markets-IsSelection (id_set n ids) chosen),
      )
