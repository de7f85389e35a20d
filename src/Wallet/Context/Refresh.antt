-- ===== src/Wallet/Context/Refresh.antt =====
-- What a refresh of the list of wallets leaves selected.
use easyclaw.Base.{
  ◌≡◌, refl, ◌↔◌, true, Bool-cases, Option-cases, inl, inr, Option, none, some, List, [], ◌∷◌,
  arith, find, find-any, if◌then◌else◌, or_option, Text, text_eq, text_eq_iff,
}
use easyclaw.Wallet.Objects.{Store}
use easyclaw.Wallet.Detection.{
  WalletOption, Window, has_id, detect_wallet_options, pick_preferred, wallet_options_equal,
}
use easyclaw.Wallet.Detection.Preference.{pick_preferred-none_iff, pick_preferred-listed}
use easyclaw.Wallet.Context.{
  Wallet, saved_wallet_id, same_id, refresh_options, refresh_wallet_options, selected_option,
}

-- Lists that count as equal have the same ids.
equal-has_id :
    (xs ys : List WalletOption) (id : Text)
    → wallet_options_equal xs ys ≡ true
    → has_id ys id ≡ true
    → has_id xs id ≡ true
unfolding wallet_options_equal
equal-has_id [] [] id e h = h
equal-has_id [] (y ∷ ys) id e h = cc
equal-has_id (x ∷ xs) [] id e h = cc
equal-has_id (x ∷ xs) (y ∷ ys) id e h = ground (arith, text_eq_iff x.id y.id, equal-has_id xs ys id)

-- The option that has the selected id.
abbrev chosen_from : Option Text → List WalletOption → Option WalletOption
chosen_from selected options = find (λ o. same_id (some o.id) selected) options

nothing_chosen : (options : List WalletOption) → chosen_from none options ≡ none
nothing_chosen [] = refl
nothing_chosen (o ∷ options) = nothing_chosen options

listed_chosen :
    (options : List WalletOption) (id : Text)
    → has_id options id ≡ true
    → (o : WalletOption) × (chosen_from (some id) options ≡ some o)
listed_chosen options id h = find-any (λ o. text_eq o.id id) options h

-- The list that the updater keeps has the ids of the one that was detected.
kept-has_id :
    (xs ys : List WalletOption) (id : Text)
    → has_id ys id ≡ true
    → has_id (if wallet_options_equal xs ys then xs else ys) id ≡ true
kept-has_id xs ys id h = elim (Bool-cases (wallet_options_equal xs ys)) [
  | inl same ↦ rw same (equal-has_id xs ys id same h)
  | inr new ↦ rw new h
]

refresh_options-selected :
    (discovered : List WalletOption) (s : Wallet)
    → (selected_option (refresh_options discovered s) ≡ none) ↔ (discovered ≡ [])
unfolding selected_option refresh_options
refresh_options-selected discovered s =
    let wanted = or_option s.selected_wallet_id (saved_wallet_id s.storage) in
    let kept =
      if wallet_options_equal s.wallet_options discovered then s.wallet_options else discovered in
    elim (Option-cases (pick_preferred discovered wanted)) [
      | inl missing ↦ (
        λ e. (pick_preferred-none_iff discovered wanted).0 missing,
        λ e. rw missing (nothing_chosen kept),
      )
      | inr (id, picked) ↦
          let (o, found) = listed_chosen kept id (
            kept-has_id s.wallet_options discovered id
              (pick_preferred-listed discovered wanted picked)) in
          (
            λ e. cc (rw (picked, found) at e),
            λ e. cc (rw ((pick_preferred-none_iff discovered wanted).1 e) at picked),
          )
    ]

-- After a refresh of the list, whatever the state and the remembered wallet were, no option is
-- selected exactly when no wallet was detected.
pub refresh_wallet_options-selected :
    (h : Store) (window : Window) (s : Wallet)
    → (selected_option (refresh_wallet_options h window s) ≡ none)
      ↔ (detect_wallet_options h window ≡ [])
unfolding refresh_wallet_options
refresh_wallet_options-selected h window s =
    refresh_options-selected (detect_wallet_options h window) s
