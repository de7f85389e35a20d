-- ===== src/Wallet/Context/Events.antt =====
-- Everything that can happen to the state of `WalletProvider`, as events in any order. The store of
-- the extensions' objects may differ from one event to the next.
use easyclaw.Base.{ℕ, Option, List, [], ◌∷◌, Text}
use easyclaw.Wallet.Objects.{Value, Store}
use easyclaw.Wallet.Detection.{WalletOption, Window}
use easyclaw.Wallet.Context.{
  Wallet, Outcome, refresh_wallet_options, on_selected, handle_connect, handle_disconnect,
  handle_account_changed, set_selected_wallet_id, connect_wallet, connect_wallet_by_id,
  finish_connect, begin_disconnect, finish_disconnect, clear_error, open_wallet_picker,
  close_wallet_picker,
}

-- An extension fires `connected`, `disconnected` and `account_changed`; `answered` and `left` are the
-- ends of the two waits; the others come from the timer, from React and from the user.
pub data Event : Type 0 where
  refreshed : Window → Event
  selection_changed : Option WalletOption → Event
  connected : ℕ → Value → Event
  disconnected : Event
  account_changed : Value → Event
  chosen : Text → Event
  connect_asked : Event
  connect_by_id_asked : Text → Event
  answered : WalletOption → Outcome → Event
  disconnect_asked : Event
  left : Option Text → Event
  error_cleared : Event
  picker_opened : Option Text → Event
  picker_closed : Event

unfoldable pub step : Store → Event → Wallet → Wallet
step h (refreshed window) s = refresh_wallet_options h window s
step h (selection_changed o) s = on_selected h o s
step h (connected p key) s = handle_connect h p key s
step h disconnected s = handle_disconnect s
step h (account_changed key) s = handle_account_changed h key s
step h (chosen id) s = set_selected_wallet_id id s
step h connect_asked s = (connect_wallet s).0
step h (connect_by_id_asked id) s = (connect_wallet_by_id id s).0
step h (answered o outcome) s = (finish_connect h o outcome s).0
step h disconnect_asked s = begin_disconnect s
step h (left failure) s = finish_disconnect failure s
step h error_cleared s = clear_error s
step h (picker_opened target) s = open_wallet_picker target s
step h picker_closed s = close_wallet_picker s

unfoldable pub run : List (Store × Event) → Wallet → Wallet
unfolding step
run [] s = s
run ((h, e) ∷ es) s = run es (step h e s)
