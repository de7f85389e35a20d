-- ===== src/Wallet/Detection/Preference.antt =====
-- Which of the detected wallets is preferred, and when two lists of them count as equal.
use easyclaw.Base.{
  ◌≡◌, refl, ◌↔◌, inl, inr, true, ◌&&◌, not, Option, none, some, List, [], ◌∷◌, arith, map,
  Bool-cases, ℕ, Text, text, text_eq_refl, text_eq_iff, is_empty,
}
use easyclaw.Wallet.Detection.{
  WalletOption, has_id, first_id, by_priority, pick_preferred, wallet_options_equal,
}

-- The answer is the id of a listed wallet, or there is none to choose from.
abbrev IsChoice : List WalletOption → Option Text → Type 0
IsChoice options none = options ≡ []
IsChoice options (some id) = has_id options id ≡ true

first_id-IsChoice :
    (options : List WalletOption) (ids : List Text) → IsChoice options (first_id options ids)
first_id-IsChoice [] [] = refl
first_id-IsChoice (o ∷ os) [] = rw (text_eq_refl o.id)
first_id-IsChoice options (id ∷ ids) = elim (Bool-cases (has_id options id)) [
  | inl there ↦ rw (first_id, there) there
  | inr missing ↦ rw (first_id, missing) (first_id-IsChoice options ids)
]

by_priority-IsChoice : (options : List WalletOption) → IsChoice options (by_priority options)
unfolding by_priority
by_priority-IsChoice options =
    first_id-IsChoice options (text "phantom" ∷ text "solflare" ∷ text "backpack" ∷ [])

pick-IsChoice :
    (options : List WalletOption) (wanted : Option Text)
    → IsChoice options (pick_preferred options wanted)
unfolding pick_preferred
pick-IsChoice options none = by_priority-IsChoice options
pick-IsChoice options (some id) = elim (Bool-cases (not (is_empty id) && has_id options id)) [
  | inl kept ↦ rw (pick_preferred, kept) (ground arith)
  | inr other ↦ rw (pick_preferred, other) (by_priority-IsChoice options)
]

no_choice :
    (options : List WalletOption) (c : Option Text) → options ≡ [] → IsChoice options c → c ≡ none
no_choice options none e h = refl
no_choice options (some id) e h = cc (rw e at h)

-- `pickPreferredWalletID` answers null exactly when there is no wallet at all, whatever was wanted.
pub pick_preferred-none_iff :
    (options : List WalletOption) (wanted : Option Text)
    → (pick_preferred options wanted ≡ none) ↔ (options ≡ [])
pick_preferred-none_iff options wanted = (
  λ e. rw e at (pick-IsChoice options wanted),
  λ e. no_choice options (pick_preferred options wanted) e (pick-IsChoice options wanted),
)

-- What `pickPreferredWalletID` answers is the id of a listed wallet.
pub pick_preferred-listed :
    (options : List WalletOption) (wanted : Option Text) {id : Text}
    → pick_preferred options wanted ≡ some id
    → has_id options id ≡ true
pick_preferred-listed options wanted e = rw e at (pick-IsChoice options wanted)

abbrev pub identity : WalletOption → Text × ℕ
identity o = (o.id, o.provider)

equal-map :
    (xs ys : List WalletOption)
    → wallet_options_equal xs ys ≡ true
    → map identity xs ≡ map identity ys
unfolding wallet_options_equal
equal-map [] [] h = refl
equal-map [] (y ∷ ys) h = cc
equal-map (x ∷ xs) [] h = cc
equal-map (x ∷ xs) (y ∷ ys) h = ground (arith, text_eq_iff x.id y.id, equal-map xs ys)

map-equal :
    (xs ys : List WalletOption)
    → map identity xs ≡ map identity ys
    → wallet_options_equal xs ys ≡ true
unfolding wallet_options_equal
map-equal [] [] h = refl
map-equal [] (y ∷ ys) h = cc
map-equal (x ∷ xs) [] h = cc
map-equal (x ∷ xs) (y ∷ ys) h = ground (arith, text_eq_iff x.id y.id, map-equal xs ys)

-- `walletOptionsEqual` holds exactly when the two lists have the same ids and provider objects in
-- the same order, so that labels alone never refresh the list.
pub wallet_options_equal_iff :
    (xs ys : List WalletOption)
    → (wallet_options_equal xs ys ≡ true) ↔ (map identity xs ≡ map identity ys)
wallet_options_equal_iff xs ys = (equal-map xs ys, map-equal xs ys)
