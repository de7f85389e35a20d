-- ===== src/Wallet/Context/Laws.antt =====
-- About the wallet's state under its events.
use easyclaw.Base.{
  ◌≡◌, refl, ◌≢◌, Bool, true, false, Bool-cases, inl, inr, Option, none, some, List, [], ◌∷◌, arith,
  if◌then◌else◌, Text, text, text_eq, text_eq_iff, text_eq_refl, Dict, lookup, insert, remove,
  lookup-insert, lookup-remove,
}
use easyclaw.Wallet.Objects.{Store}
use easyclaw.Wallet.Address.{to_base58}
use easyclaw.Wallet.Address.Laws.{IsAddress, to_base58-IsAddress}
use easyclaw.Wallet.Detection.{WalletOption, Window, has_id}
use easyclaw.Wallet.Context.{
  auto_connect_key, preferred_wallet_key, Wallet, non_blank, saved_wallet_id, initial_wallet,
  same_id, remember, refresh_wallet_options, selected_option, provider_key, or_value, on_selected,
  handle_connect, handle_disconnect, handle_account_changed, set_selected_wallet_id, start_connect,
  begin_connect, Outcome, resolved, rejected, connected, finish_connect, begin_disconnect,
  finish_disconnect, clear_error, open_wallet_picker, close_wallet_picker, connect_wallet,
  connect_wallet_by_id,
}
use easyclaw.Wallet.Context.Events.{Event, step, run}

-- The chosen wallet is the one that the store remembers.
abbrev pub Remembers : Wallet → Type 0
Remembers s =
    (id : Text)
    → s.selected_wallet_id ≡ some id
    → id ≢ []
    → lookup preferred_wallet_key s.storage ≡ some id

-- A public key that is shown has the form of one; a closed picker has no target; the selection is
-- the remembered one.
pub record IsValid (s : Wallet) : Type 0 where
  pub address : (a : Text) → s.wallet_pubkey ≡ some a → IsAddress a
  pub closed : s.wallet_picker_open ≡ false → s.wallet_picker_target_path ≡ none
  pub remembered : Remembers s

keys_differ : text_eq auto_connect_key preferred_wallet_key ≡ false
unfolding text text_eq
keys_differ = refl

-- Storing the flag for automatic connection does not touch the remembered choice.
lookup-flag :
    (v : Text) (d : Dict Text)
    → lookup preferred_wallet_key (insert auto_connect_key v d) ≡ lookup preferred_wallet_key d
lookup-flag v d = rw (lookup-insert auto_connect_key preferred_wallet_key v d, keys_differ)

lookup-no_flag :
    (d : Dict Text)
    → lookup preferred_wallet_key (remove auto_connect_key d) ≡ lookup preferred_wallet_key d
lookup-no_flag d = rw (lookup-remove auto_connect_key preferred_wallet_key d, keys_differ)

lookup-choice :
    (id : Text) (d : Dict Text)
    → lookup preferred_wallet_key (insert preferred_wallet_key id d) ≡ some id
lookup-choice id d = rw (
  lookup-insert preferred_wallet_key preferred_wallet_key id d,
  text_eq_refl preferred_wallet_key,
)

lookup-remember :
    (id : Text) (d : Dict Text)
    → id ≢ []
    → lookup preferred_wallet_key (remember (some id) d) ≡ some id
lookup-remember [] d filled = absurd (filled refl)
lookup-remember (c ∷ id) d filled = lookup-choice (c ∷ id) d

same_id_sound : (a b : Option Text) → same_id a b ≡ true → a ≡ b
same_id_sound none none h = refl
same_id_sound none (some b) h = cc
same_id_sound (some a) none h = cc
same_id_sound (some a) (some b) h = ground (arith, text_eq_iff a b)

remembered_next :
    (next current : Option Text) (d : Dict Text)
    → ((id : Text) → current ≡ some id → id ≢ [] → lookup preferred_wallet_key d ≡ some id)
    → (id : Text) → next ≡ some id
    → id ≢ []
    → lookup preferred_wallet_key (if same_id next current then d else remember next d) ≡ some id
remembered_next next current d old id e filled = elim (Bool-cases (same_id next current)) [
  | inl same ↦ rw same (old id (rw (same_id_sound next current same) at e) filled)
  | inr changed ↦ rw (changed, e) (lookup-remember id d filled)
]

refresh-IsValid :
    (h : Store) (win : Window) (s : Wallet) → IsValid s → IsValid (refresh_wallet_options h win s)
unfolding refresh_wallet_options
refresh-IsValid h win s v = record {
  address = v.address;
  closed = v.closed;
  remembered = remembered_next _ s.selected_wallet_id s.storage v.remembered;
}

initial-IsValid : (d : Dict Text) → IsValid (initial_wallet d)
unfolding initial_wallet saved_wallet_id
initial-IsValid d = record {
  address = λ a e. cc;
  closed = λ e. refl;
  remembered = λ id e filled. stored (lookup preferred_wallet_key d) id e;
}
  where
    stored : (o : Option Text) (id : Text) → non_blank o ≡ some id → o ≡ some id
    stored none id e = cc
    stored (some t) id e = ground arith

-- A state that differs from a valid one only in what the fields say here is valid.
change_key :
    (s t : Wallet)
    → ((a : Text) → t.wallet_pubkey ≡ some a → IsAddress a)
    → t.wallet_picker_open ≡ s.wallet_picker_open
    → t.wallet_picker_target_path ≡ s.wallet_picker_target_path
    → t.selected_wallet_id ≡ s.selected_wallet_id
    → lookup preferred_wallet_key t.storage ≡ lookup preferred_wallet_key s.storage
    → IsValid s
    → IsValid t
change_key s t address opened target selected stored v = record {
  address = address;
  closed = λ e. rw target (v.closed (rw opened at e));
  remembered = λ id e filled. rw stored (v.remembered id (rw selected at e) filled);
}

finish_connect-IsValid :
    (h : Store) (o : WalletOption) (outcome : Outcome) (s : Wallet)
    → IsValid s
    → IsValid (finish_connect h o outcome s).0
unfolding finish_connect
finish_connect-IsValid h o (rejected m) s v = change_key s _ v.address refl refl refl refl v
finish_connect-IsValid h o (resolved key) s v =
    go (to_base58 h (or_value key (provider_key h o.provider))) (λ a e. to_base58-IsAddress h _ e)
  where
    go : (r : Option Text) → ((a : Text) → r ≡ some a → IsAddress a) → IsValid (connected o r s).0
    go none sound = change_key s _ v.address refl refl refl refl v
    go (some address) sound = record {
      address = λ a e. sound a e;
      closed = v.closed;
      remembered = λ id e filled.
          let same : o.id ≡ id = ground arith in
          rw (← same) (lookup-choice o.id (insert auto_connect_key (text "1") s.storage));
    }

start_connect-IsValid :
    (option : Option WalletOption) (s : Wallet) → IsValid s → IsValid (start_connect option s).0
start_connect-IsValid none s v = change_key s _ v.address refl refl refl refl v
start_connect-IsValid (some o) s v = change_key s _ v.address refl refl refl refl v

if-IsValid :
    (b : Bool) (p q : Wallet × Bool) → IsValid p.0 → IsValid q.0 → IsValid (if b then p else q).0
if-IsValid true p q vp vq = vp
if-IsValid false p q vp vq = vq

begin_connect-IsValid :
    (option : Option WalletOption) (s : Wallet) → IsValid s → IsValid (begin_connect option s).0
unfolding begin_connect
begin_connect-IsValid option s v =
    if-IsValid s.connecting (s, false) (start_connect option s) v (start_connect-IsValid option s v)

set_selected-IsValid : (id : Text) (s : Wallet) → IsValid s → IsValid (set_selected_wallet_id id s)
unfolding set_selected_wallet_id
set_selected-IsValid id s v = elim (Bool-cases (has_id s.wallet_options id)) [
  | inr missing ↦ rw missing v
  | inl there ↦ rw there (record {
    address = v.address;
    closed = v.closed;
    remembered = λ chosen e filled.
        let same : id ≡ chosen = ground arith in rw (← same) (lookup-choice id s.storage);
  })
]

step-IsValid : (h : Store) (e : Event) (s : Wallet) → IsValid s → IsValid (step h e s)
unfolding step
step-IsValid h (Event.refreshed win) s v = refresh-IsValid h win s v
step-IsValid h (Event.selection_changed none) s v =
    unfold on_selected in change_key s _ (λ a e. cc) refl refl refl refl v
step-IsValid h (Event.selection_changed (some o)) s v =
    unfold on_selected in change_key s _ (λ a e. to_base58-IsAddress h _ e) refl refl refl refl v
step-IsValid h (Event.connected p key) s v =
    unfold handle_connect in change_key s _ (λ a e. to_base58-IsAddress h _ e) refl refl refl refl v
step-IsValid h Event.disconnected s v =
    unfold handle_disconnect in
    change_key s _ (λ a e. cc) refl refl refl (lookup-no_flag s.storage) v
step-IsValid h (Event.account_changed key) s v =
    unfold handle_account_changed in
    change_key s _ (λ a e. to_base58-IsAddress h _ e) refl refl refl refl v
step-IsValid h (Event.chosen id) s v = set_selected-IsValid id s v
step-IsValid h Event.connect_asked s v =
    unfold connect_wallet in begin_connect-IsValid (selected_option s) s v
step-IsValid h (Event.connect_by_id_asked id) s v =
    unfold connect_wallet_by_id in begin_connect-IsValid _ s v
step-IsValid h (Event.answered o outcome) s v = finish_connect-IsValid h o outcome s v
step-IsValid h Event.disconnect_asked s v =
    unfold begin_disconnect in change_key s _ v.address refl refl refl refl v
step-IsValid h (Event.left failure) s v =
    unfold finish_disconnect in
    change_key s _ (λ a e. cc) refl refl refl (lookup-no_flag s.storage) v
step-IsValid h Event.error_cleared s v =
    unfold clear_error in change_key s _ v.address refl refl refl refl v
step-IsValid h (Event.picker_opened target) s v =
    unfold open_wallet_picker in
    record { address = v.address; closed = λ e. cc; remembered = v.remembered }
step-IsValid h Event.picker_closed s v =
    unfold close_wallet_picker in
    record { address = v.address; closed = λ e. refl; remembered = v.remembered }

run-IsValid : (es : List (Store × Event)) (s : Wallet) → IsValid s → IsValid (run es s)
unfolding run
run-IsValid [] s v = v
run-IsValid ((h, e) ∷ es) s v = run-IsValid es (step h e s) (step-IsValid h e s v)

-- From the initial state of any browser store, after any events in any order, with the extensions'
-- objects changing in between: a public key that is shown is 32 to 44 characters of the base58
-- alphabet, a closed picker has no target, and a selection that is not empty is the remembered one.
pub run_initial-IsValid :
    (stored : Dict Text) (es : List (Store × Event)) → IsValid (run es (initial_wallet stored))
run_initial-IsValid stored es = run-IsValid es (initial_wallet stored) (initial-IsValid stored)
