-- ===== src/Wallet/Context/Races.antt =====
-- How a connection ends, and what a disconnection in between does to it.
use easyclaw.Base.{
  ◌≡◌, refl, Bool, true, false, Option, none, some, Text, text, text_eq, text_eq_refl, lookup,
  insert, lookup-insert, ◌≢◌,
}
use easyclaw.Wallet.Objects.{Value, Store}
use easyclaw.Wallet.Address.{to_base58}
use easyclaw.Wallet.Detection.{WalletOption}
use easyclaw.Wallet.Context.{
  auto_connect_key, preferred_wallet_key, Wallet, Outcome, resolved, rejected, provider_key,
  or_value, connected, finish_connect, begin_disconnect, finish_disconnect, wants_auto_connect,
  begin_connect, start_connect,
}

-- The wait is over, and the attempt has succeeded or failed as a whole.
abbrev pub Settled : Wallet → WalletOption → Wallet × Bool → Type 0
Settled s o (t, true) =
    (t.connecting ≡ false)
    × (t.selected_wallet_id ≡ some o.id)
    × (t.wallet_pubkey ≢ none)
    × (lookup preferred_wallet_key t.storage ≡ some o.id)
    × (wants_auto_connect t ≡ true)
Settled s o (t, false) =
    (t.connecting ≡ false)
    × (t.error ≢ none)
    × (t ≡ record s { connecting = false; error = t.error })

choice_after :
    (id flag : Text) (s : Wallet)
    → lookup preferred_wallet_key
        (insert preferred_wallet_key id (insert auto_connect_key flag s.storage))
      ≡ some id
choice_after id flag s =
    rw (
      lookup-insert preferred_wallet_key preferred_wallet_key id,
      text_eq_refl preferred_wallet_key,
    )

flag_after :
    (id : Text) (s : Wallet)
    → lookup auto_connect_key
        (insert preferred_wallet_key id (insert auto_connect_key (text "1") s.storage))
      ≡ some (text "1")
flag_after id s = rw (
  lookup-insert preferred_wallet_key auto_connect_key id,
  keys_apart,
  lookup-insert auto_connect_key auto_connect_key (text "1") s.storage,
  text_eq_refl auto_connect_key,
)
  where
    keys_apart : text_eq preferred_wallet_key auto_connect_key ≡ false
    keys_apart = unfold text text_eq in refl

wants_after :
    (t : Wallet) → lookup auto_connect_key t.storage ≡ some (text "1") → wants_auto_connect t ≡ true
unfolding wants_auto_connect
wants_after t e = rw e (text_eq_refl (text "1"))

connected-Settled :
    (o : WalletOption) (r : Option Text) (s : Wallet) → Settled s o (connected o r s)
connected-Settled o none s = (refl, λ e. cc, refl)
connected-Settled o (some a) s = (
  refl,
  refl,
  λ e. cc,
  choice_after o.id (text "1") s,
  wants_after (connected o (some a) s).0 (flag_after o.id s),
)

-- However the extension answers, the wait is over, and either the wallet is connected as a whole
-- (a key is shown, the wallet is selected and remembered, the next visit connects by itself and the
-- call returns true) or the call returns false with an error and changes nothing else.
pub finish_connect-Settled :
    (h : Store) (o : WalletOption) (outcome : Outcome) (s : Wallet)
    → Settled s o (finish_connect h o outcome s)
unfolding finish_connect
finish_connect-Settled h o (resolved key) s =
    connected-Settled o (to_base58 h (or_value key (provider_key h o.provider))) s
finish_connect-Settled h o (rejected m) s = (refl, λ e. cc, refl)

-- A disconnection that is asked for while a connection waits does not cancel it: the state lets
-- another connection start at once, and when the first is answered with an address, the wallet is
-- connected again and the next visit connects by itself.
pub late_answer_reconnects :
    (h : Store) (o : WalletOption) (key : Value) (failure : Option Text) (s : Wallet) {a : Text}
    → to_base58 h (or_value key (provider_key h o.provider)) ≡ some a
    → let t = finish_disconnect failure (begin_disconnect s) in
      (t.wallet_pubkey ≡ none)
      × (begin_connect (some o) t ≡ start_connect (some o) t)
      × ((finish_connect h o (resolved key) t).0.wallet_pubkey ≡ some a)
      × (wants_auto_connect (finish_connect h o (resolved key) t).0 ≡ true)
unfolding finish_disconnect finish_connect begin_connect
late_answer_reconnects h o key failure s {a} e = (
  refl,
  refl,
  rw e,
  let t : Wallet = finish_disconnect failure (begin_disconnect s) in
      rw e (wants_after (connected o (some a) t).0 (flag_after o.id t)),
)
