-- ===== src/Wallet/Detection.antt =====
-- Which wallets the page has: `unwrapWalletProvider` to `walletOptionsEqual` of wallet.tsx.
pub mod Laws
pub mod Preference
use easyclaw.Base.{
  ℕ, zero, suc, ◌+◌, Bool, true, false, ◌&&◌, ◌||◌, not, Option, none, some, List, [], ◌∷◌, ◌++◌,
  if◌then◌else◌, ◌==◌, any, first, is_empty, or_else, option_bind, option_map, Text, text, text_eq,
  show_ℕ,
}
use easyclaw.Wallet.Objects.{Value, nullish, falsy, str, other, ref, JsObject, Store}

-- `WalletOptionInternal`; the provider is known by its place in the store.
pub record WalletOption : Type 0 where
  pub id : Text
  pub label : Text
  pub provider : ℕ

-- The wallet properties of `window`; those that are absent are `nullish`.
pub record Window : Type 0 where
  pub phantom_solana : Value
  pub solflare : Value
  pub backpack : Value
  pub solana : Value

unfoldable pub is_wallet_provider : Store → Value → Bool
is_wallet_provider h nullish = false
is_wallet_provider h falsy = false
is_wallet_provider h (str s) = false
is_wallet_provider h other = false
is_wallet_provider h (ref r) = (h r).connect

-- The provider that a value is.
abbrev pub as_provider : Store → Value → Option ℕ
as_provider h nullish = none
as_provider h falsy = none
as_provider h (str s) = none
as_provider h other = none
as_provider h (ref r) = if (h r).connect then some r else none

-- The value itself, or else what it holds as `solana`.
unfoldable pub unwrap_wallet_provider : Store → Value → Option ℕ
unwrap_wallet_provider h nullish = none
unwrap_wallet_provider h falsy = none
unwrap_wallet_provider h (str s) = none
unwrap_wallet_provider h other = none
unwrap_wallet_provider h (ref r) =
    if (h r).connect then some r else option_bind (h r).solana (as_provider h)

-- The two variables of `detectWalletOptions`.
pub record Found : Type 0 where
  pub options : List WalletOption
  pub seen : List ℕ

unfoldable pub add_provider : Text → Text → Option ℕ → Found → Found
add_provider id label none found = found
add_provider id label (some p) found = if any (λ q. q == p) found.seen then found else record {
  options = found.options ++ record { id = id; label = label; provider = p } ∷ [];
  seen = p ∷ found.seen;
}

unfoldable pub push_wallet_option : Store → Text → Text → Value → Found → Found
unfolding add_provider
push_wallet_option h id label candidate found =
    add_provider id label (unwrap_wallet_provider h candidate) found

-- The id and the label.
unfoldable pub wallet_identity : JsObject → ℕ → Text × Text
wallet_identity o index =
    if o.is_phantom
    then (text "phantom", text "Phantom")
    else if o.is_solflare
    then (text "solflare", text "Solflare")
    else if o.is_backpack
    then (text "backpack", text "Backpack")
    else (text "injected-" ++ show_ℕ (index + 1), text "Injected Wallet " ++ show_ℕ (index + 1))

-- One round of `providerPool.forEach`.
unfoldable pub push_pooled : Store → ℕ → Value → Found → Found
push_pooled h index candidate found = elim (unwrap_wallet_provider h candidate) [
  | none ↦ found
  | some p ↦
      let identity = wallet_identity (h p) index in
      push_wallet_option h identity.0 identity.1 (ref p) found
]

unfoldable pub push_pool : Store → ℕ → List Value → Found → Found
push_pool h index [] found = found
push_pool h index (c ∷ pool) found = push_pool h (index + 1) pool (push_pooled h index c found)

abbrev pub provider_pool : Store → Option ℕ → List Value
provider_pool h none = []
provider_pool h (some g) = or_else (h g).providers []

-- The injected provider itself, if nothing else was found.
unfoldable pub push_global : Store → Option ℕ → Found → Found
push_global h none found = found
push_global h (some g) found = elim found.options [
  | [] ↦
      let identity = wallet_identity (h g) 0 in
      push_wallet_option h identity.0 identity.1 (ref g) found
  | o ∷ os ↦ found
]

unfoldable pub found_wallets : Store → Window → Found
found_wallets h window =
    let start : Found = record { options = []; seen = [] } in
    let one = push_wallet_option h (text "phantom") (text "Phantom") window.phantom_solana start in
    let two = push_wallet_option h (text "solflare") (text "Solflare") window.solflare one in
    let three = push_wallet_option h (text "backpack") (text "Backpack") window.backpack two in
    let global = unwrap_wallet_provider h window.solana in
    push_global h global (push_pool h 0 (provider_pool h global) three)

unfoldable pub detect_wallet_options : Store → Window → List WalletOption
unfolding found_wallets
detect_wallet_options h window = (found_wallets h window).options

abbrev pub has_id : List WalletOption → Text → Bool
has_id options id = any (λ o. text_eq o.id id) options

abbrev first_id : List WalletOption → List Text → Option Text
first_id options [] = option_map (λ o. o.id) (first options)
first_id options (id ∷ ids) = if has_id options id then some id else first_id options ids

-- The order of preference when the wanted wallet is not there.
unfoldable pub by_priority : List WalletOption → Option Text
by_priority options = first_id options (text "phantom" ∷ text "solflare" ∷ text "backpack" ∷ [])

unfoldable pub pick_preferred : List WalletOption → Option Text → Option Text
pick_preferred options none = by_priority options
pick_preferred options (some id) =
    if not (is_empty id) && has_id options id then some id else by_priority options

unfoldable pub wallet_options_equal : List WalletOption → List WalletOption → Bool
wallet_options_equal [] [] = true
wallet_options_equal [] (y ∷ ys) = false
wallet_options_equal (x ∷ xs) [] = false
wallet_options_equal (x ∷ xs) (y ∷ ys) =
    text_eq x.id y.id && x.provider == y.provider && wallet_options_equal xs ys
