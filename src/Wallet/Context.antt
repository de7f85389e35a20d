-- ===== src/Wallet/Context.antt =====
-- The state of `WalletProvider` in wallet.tsx and its handlers. React renders between the steps, so
-- a handler reads the state of the moment. `connectWalletWithOption` and `disconnectWallet` wait for
-- the extension: each is two steps, and anything may happen between them.
pub mod Events
pub mod Laws
pub mod Races
pub mod Refresh
use easyclaw.Base.{
  ℕ, ltb, Bool, true, false, ◌&&◌, not, Option, none, some, List, [], ◌∷◌, if◌then◌else◌, any, find,
  is_some, is_empty, or_option, option_map, length, Text, text, text_eq, is_blank, Dict, lookup,
  insert, remove,
}
use easyclaw.Wallet.Objects.{Value, nullish, falsy, str, other, ref, Store}
use easyclaw.Wallet.Address.{to_base58}
use easyclaw.Wallet.Detection.{
  WalletOption, Window, has_id, detect_wallet_options, pick_preferred, wallet_options_equal,
}

abbrev pub auto_connect_key : Text
auto_connect_key = text "easyclaw_wallet_auto_connect"

abbrev pub preferred_wallet_key : Text
preferred_wallet_key = text "easyclaw_wallet_provider"

-- The state of the component; `storage` is `window.localStorage`.
pub record Wallet : Type 0 where
  pub wallet_pubkey : Option Text
  pub wallet_options : List WalletOption
  pub selected_wallet_id : Option Text
  pub connecting : Bool
  pub wallet_picker_open : Bool
  pub wallet_picker_target_path : Option Text
  pub error : Option Text
  pub storage : Dict Text

unfoldable pub non_blank : Option Text → Option Text
non_blank none = none
non_blank (some s) = if is_blank s then none else some s

-- `getSavedWalletID`
unfoldable pub saved_wallet_id : Dict Text → Option Text
unfolding non_blank
saved_wallet_id storage = non_blank (lookup preferred_wallet_key storage)

unfoldable pub initial_wallet : Dict Text → Wallet
initial_wallet storage = record {
  wallet_pubkey = none;
  wallet_options = [];
  selected_wallet_id = saved_wallet_id storage;
  connecting = false;
  wallet_picker_open = false;
  wallet_picker_target_path = none;
  error = none;
  storage = storage;
}

abbrev pub same_id : Option Text → Option Text → Bool
same_id none none = true
same_id none (some b) = false
same_id (some a) none = false
same_id (some a) (some b) = text_eq a b

-- What the store holds of the choice after it has changed; an empty id counts as none.
abbrev pub remember : Option Text → Dict Text → Dict Text
remember none storage = remove preferred_wallet_key storage
remember (some id) storage =
    if is_empty id
    then remove preferred_wallet_key storage
    else insert preferred_wallet_key id storage

-- The updater of `refreshWalletOptions`.
unfoldable pub refresh_options : List WalletOption → Wallet → Wallet
refresh_options discovered s =
    let current = s.selected_wallet_id in
    let next = pick_preferred discovered (or_option current (saved_wallet_id s.storage)) in
    record s {
      wallet_options =
          if wallet_options_equal s.wallet_options discovered then s.wallet_options else discovered;
      selected_wallet_id = next;
      storage = if same_id next current then s.storage else remember next s.storage;
    }

unfoldable pub refresh_wallet_options : Store → Window → Wallet → Wallet
unfolding refresh_options
refresh_wallet_options h window = refresh_options (detect_wallet_options h window)

-- `selectedWalletOption`
unfoldable pub selected_option : Wallet → Option WalletOption
selected_option s = find (λ o. same_id (some o.id) s.selected_wallet_id) s.wallet_options

-- `provider.publicKey`
abbrev pub provider_key : Store → ℕ → Value
provider_key h p = elim (h p).public_key [ none ↦ nullish | some v ↦ v ]

-- `value ?? fallback`
abbrev pub or_value : Value → Value → Value
or_value nullish v = v
or_value falsy v = falsy
or_value (str s) v = str s
or_value other v = other
or_value (ref r) v = ref r

-- The effect on a change of the selected option, up to the subscriptions.
unfoldable pub on_selected : Store → Option WalletOption → Wallet → Wallet
on_selected h none s = record s { wallet_pubkey = none }
on_selected h (some o) s = record s { wallet_pubkey = to_base58 h (provider_key h o.provider) }

-- `value === expected`, for a value that may be missing.
abbrev pub is_text : Text → Option Text → Bool
is_text expected none = false
is_text expected (some v) = text_eq v expected

-- Whether that effect asks the provider to connect without a prompt.
unfoldable pub wants_auto_connect : Wallet → Bool
wants_auto_connect s = is_text (text "1") (lookup auto_connect_key s.storage)

unfoldable pub handle_connect : Store → ℕ → Value → Wallet → Wallet
handle_connect h p key s = record s {
  wallet_pubkey = to_base58 h (or_value key (provider_key h p));
  error = none;
}

unfoldable pub handle_disconnect : Wallet → Wallet
handle_disconnect s = record s { wallet_pubkey = none; storage = remove auto_connect_key s.storage }

unfoldable pub handle_account_changed : Store → Value → Wallet → Wallet
handle_account_changed h key s = record s { wallet_pubkey = to_base58 h key }

unfoldable pub set_selected_wallet_id : Text → Wallet → Wallet
set_selected_wallet_id id s =
    if has_id s.wallet_options id
    then record s {
      selected_wallet_id = some id;
      storage = insert preferred_wallet_key id s.storage;
      error = none;
    }
    else s

-- `connectWalletWithOption` up to its `await`: the new state, and whether it goes on.
abbrev pub start_connect : Option WalletOption → Wallet → Wallet × Bool
start_connect none s =
    (record s { error = some (text "No compatible Solana wallet found.") }, false)
start_connect (some o) s = (record s { connecting = true; error = none }, true)

unfoldable pub begin_connect : Option WalletOption → Wallet → Wallet × Bool
begin_connect option s = if s.connecting then (s, false) else start_connect option s

-- What the extension answers: `response.publicKey`, or the message of its error.
pub data Outcome : Type 0 where
  resolved : Value → Outcome
  rejected : Text → Outcome

abbrev pub connected : WalletOption → Option Text → Wallet → Wallet × Bool
connected o none s =
    (record s { error = some (text "Wallet returned no public key."); connecting = false }, false)
connected o (some address) s = (
  record s {
    wallet_pubkey = some address;
    selected_wallet_id = some o.id;
    storage = insert preferred_wallet_key o.id (insert auto_connect_key (text "1") s.storage);
    connecting = false;
  },
  true,
)

-- The rest of it, with what it returns.
unfoldable pub finish_connect : Store → WalletOption → Outcome → Wallet → Wallet × Bool
finish_connect h o (resolved key) s =
    connected o (to_base58 h (or_value key (provider_key h o.provider))) s
finish_connect h o (rejected message) s =
    (record s { error = some message; connecting = false }, false)

-- `disconnectWallet` up to its `await`.
unfoldable pub begin_disconnect : Wallet → Wallet
begin_disconnect s = record s { connecting = true; error = none }

-- The rest of it, with the message of the error that the extension threw, if it did.
unfoldable pub finish_disconnect : Option Text → Wallet → Wallet
finish_disconnect failure s = record s {
  error = or_option failure s.error;
  storage = remove auto_connect_key s.storage;
  wallet_pubkey = none;
  connecting = false;
}

unfoldable pub clear_error : Wallet → Wallet
clear_error s = record s { error = none }

unfoldable pub open_wallet_picker : Option Text → Wallet → Wallet
open_wallet_picker target s = record s {
  wallet_picker_target_path = target;
  wallet_picker_open = true;
  error = none;
}

unfoldable pub close_wallet_picker : Wallet → Wallet
close_wallet_picker s = record s { wallet_picker_open = false; wallet_picker_target_path = none }

-- `walletInstalled` and `walletConnected` of the context's value.
unfoldable pub wallet_installed : Wallet → Bool
wallet_installed s = ltb 0 (length s.wallet_options)

unfoldable pub wallet_connected : Wallet → Bool
wallet_connected s = elim s.wallet_pubkey [ none ↦ false | some a ↦ not (is_empty a) ]

-- `connectWallet` and `connectWalletByID` choose the option.
unfoldable pub connect_wallet : Wallet → Wallet × Bool
unfolding selected_option begin_connect
connect_wallet s = begin_connect (selected_option s) s

unfoldable pub connect_wallet_by_id : Text → Wallet → Wallet × Bool
unfolding begin_connect
connect_wallet_by_id id s = begin_connect (find (λ o. text_eq o.id id) s.wallet_options) s
