-- ===== src/Wallet/Tests.antt =====
-- The wallet context on a page with two extensions: the theorems at concrete inputs, and runs.
use easyclaw.Base.{
  ◌≡◌, ◌↔◌, refl, true, false, none, some, List, [], ◌∷◌, All, map, if◌then◌else◌, ◌==◌, Text, text,
  text_eq, trim, show_ℕ,
}
use easyclaw.Wallet.Objects.{nullish, falsy, other, ref, Method, missing, JsObject, Store}
use easyclaw.Wallet.Address.{
  to_base58, to_base58_from, address_from, is_base58, normalize_base58_address, matches_address,
}
use easyclaw.Wallet.Address.Laws.{IsAddress, to_base58-IsAddress}
use easyclaw.Wallet.Detection.{
  WalletOption, Window, detect_wallet_options, found_wallets, push_wallet_option,
  unwrap_wallet_provider, push_pool, push_pooled, push_global, wallet_identity, add_provider,
  wallet_options_equal,
}
use easyclaw.Wallet.Detection.Laws.{Connects, Distinct, detect_wallet_options-Distinct}
use easyclaw.Wallet.Detection.Preference.{identity, wallet_options_equal_iff}
use easyclaw.Wallet.Context.{
  initial_wallet, resolved, begin_connect, start_connect, begin_disconnect, finish_connect,
  finish_disconnect, wants_auto_connect,
}
use easyclaw.Wallet.Context.Refresh.{refresh_wallet_options-selected}
use easyclaw.Wallet.Context.{Wallet, refresh_wallet_options, selected_option, preferred_wallet_key}
use easyclaw.Wallet.Context.Events.{Event, run}
use easyclaw.Wallet.Context.Laws.{IsValid, run_initial-IsValid}
use easyclaw.Wallet.Context.Races.{Settled, finish_connect-Settled, late_answer_reconnects}

abbrev address : Text
address = text "9xQeWvG816bUx9EPjHmaT23yvVM2ZWbrrpZb9PusVFin"

abbrev plain : JsObject
plain = record {
  address = none;
  public_key = none;
  to_base58 = missing;
  to_string = missing;
  connect = false;
  disconnect = false;
  solana = none;
  providers = none;
  is_phantom = false;
  is_solflare = false;
  is_backpack = false;
}

-- Object 0 is Phantom, which holds its key in object 1; object 2 is the injected provider, which
-- lists Phantom and itself; object 3 holds itself as its key.
abbrev store : Store
store p =
    if p == 0
    then record plain { connect = true; is_phantom = true; public_key = some (ref 1) }
    else if p == 1
    then record plain { to_base58 = Method.returns_text address }
    else if p == 2
    then record plain { connect = true; providers = some (ref 0 ∷ ref 2 ∷ other ∷ []) }
    else record plain { public_key = some (ref p) }

abbrev window : Window
window = record { phantom_solana = ref 0; solflare = nullish; backpack = falsy; solana = ref 2 }

abbrev phantom : WalletOption
phantom = record { id = text "phantom"; label = text "Phantom"; provider = 0 }

abbrev injected : WalletOption
injected = record { id = text "injected-2"; label = text "Injected Wallet 2"; provider = 2 }

detected : detect_wallet_options store window ≡ phantom ∷ injected ∷ []
unfolding detect_wallet_options found_wallets push_wallet_option unwrap_wallet_provider push_pool
    push_pooled push_global wallet_identity add_provider show_ℕ text
detected = refl

read_address : to_base58 store (ref 0) ≡ some address
unfolding to_base58 to_base58_from address_from normalize_base58_address matches_address is_base58
    trim text text_eq
read_address = refl

cyclic_address : to_base58 store (ref 3) ≡ none
unfolding to_base58 to_base58_from address_from normalize_base58_address
cyclic_address = refl

to_base58-IsAddress_example : IsAddress address
to_base58-IsAddress_example = to_base58-IsAddress store (ref 0) {a = address} read_address

detect_wallet_options-Distinct_example :
    All (Connects store) (detect_wallet_options store window)
    × Distinct (detect_wallet_options store window)
detect_wallet_options-Distinct_example = detect_wallet_options-Distinct store window

wallet_options_equal_iff_example :
    (wallet_options_equal (phantom ∷ []) (injected ∷ []) ≡ true)
    ↔ (map identity (phantom ∷ []) ≡ map identity (injected ∷ []))
wallet_options_equal_iff_example = wallet_options_equal_iff (phantom ∷ []) (injected ∷ [])

-- A visit that refreshes the list, connects, and opens and closes the picker.
abbrev visit : List (Store × Event)
visit =
    (store, Event.refreshed window)
    ∷ (store, Event.connect_asked)
    ∷ (store, Event.answered phantom (resolved (ref 0)))
    ∷ (store, Event.picker_opened (some (text "/portfolio")))
    ∷ (store, Event.picker_closed)
    ∷ []

run_initial-IsValid_example : IsValid (run visit (initial_wallet []))
run_initial-IsValid_example = run_initial-IsValid [] visit

finish_connect-Settled_example :
    Settled
      (initial_wallet [])
      phantom
      (finish_connect store phantom (resolved nullish) (initial_wallet []))
finish_connect-Settled_example =
    finish_connect-Settled store phantom (resolved nullish) (initial_wallet [])

late_answer_reconnects_example :
    let t = finish_disconnect none (begin_disconnect (initial_wallet [])) in
    (t.wallet_pubkey ≡ none)
    × (begin_connect (some phantom) t ≡ start_connect (some phantom) t)
    × ((finish_connect store phantom (resolved (ref 0)) t).0.wallet_pubkey ≡ some address)
    × (wants_auto_connect (finish_connect store phantom (resolved (ref 0)) t).0 ≡ true)
late_answer_reconnects_example =
    late_answer_reconnects store phantom (ref 0) none (initial_wallet []) {a = address} read_address

-- The store remembers a wallet that is not there.
abbrev returning : Wallet
returning = initial_wallet ((preferred_wallet_key, text "solflare") ∷ [])

refresh_wallet_options-selected_example :
    (selected_option (refresh_wallet_options store window returning) ≡ none)
    ↔ (detect_wallet_options store window ≡ [])
refresh_wallet_options-selected_example = refresh_wallet_options-selected store window returning
