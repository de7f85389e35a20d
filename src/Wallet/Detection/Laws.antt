-- ===== src/Wallet/Detection/Laws.antt =====
-- About `detectWalletOptions`.
use easyclaw.Base.{
  ℕ, ◌+◌, ◌≡◌, refl, ◌≢◌, inl, inr, true, false, Option, none, some, List, [], ◌∷◌, ◌++◌, arith,
  Bool-cases, Option-cases, All, All-append, any, length, length-append, ◌==◌, option_bind, Text,
}
use easyclaw.Wallet.Objects.{Value, nullish, falsy, str, other, ref, Store}
use easyclaw.Wallet.Detection.{
  WalletOption, Window, Found, as_provider, unwrap_wallet_provider, add_provider,
  push_wallet_option, wallet_identity, push_pooled, push_pool, push_global, found_wallets,
  detect_wallet_options,
}

abbrev pub Connects : Store → WalletOption → Type 0
Connects h o = (h o.provider).connect ≡ true

-- No provider stands in the list twice.
abbrev pub Distinct : List WalletOption → Type 0
Distinct [] = Unit
Distinct (o ∷ os) = All (λ x. x.provider ≢ o.provider) os × Distinct os

-- What holds of the two variables of `detectWalletOptions` at every moment.
record IsFound (h : Store) (f : Found) : Type 0 where
  counted : length f.options ≡ length f.seen
  connects : All (Connects h) f.options
  distinct : Distinct f.options
  covered : All (λ o. any (λ q. q == o.provider) f.seen ≡ true) f.options

as_provider-connect :
    (h : Store) (v : Value) {p : ℕ} → as_provider h v ≡ some p → (h p).connect ≡ true
as_provider-connect h nullish e = cc
as_provider-connect h falsy e = cc
as_provider-connect h (str s) e = cc
as_provider-connect h other e = cc
as_provider-connect h (ref r) {p} e = elim (Bool-cases (h r).connect) [
  | inl can ↦ let same : r ≡ p = ground arith in rw (← same) can
  | inr cannot ↦ cc (rw cannot at e)
]

unwrap-connect :
    (h : Store) (v : Value) {p : ℕ} → unwrap_wallet_provider h v ≡ some p → (h p).connect ≡ true
unfolding unwrap_wallet_provider
unwrap-connect h nullish e = cc
unwrap-connect h falsy e = cc
unwrap-connect h (str s) e = cc
unwrap-connect h other e = cc
unwrap-connect h (ref r) {p} e = elim (Bool-cases (h r).connect) [
  | inl can ↦ let same : r ≡ p = ground arith in rw (← same) can
  | inr cannot ↦ nested (h r).solana (rw cannot at e)
]
  where
    nested : (o : Option Value) → option_bind o (as_provider h) ≡ some p → (h p).connect ≡ true
    nested none k = cc
    nested (some v) k = as_provider-connect h v k

Distinct-append :
    (os : List WalletOption) (o : WalletOption)
    → Distinct os
    → All (λ x. o.provider ≢ x.provider) os
    → Distinct (os ++ o ∷ [])
Distinct-append [] o d new = (tt, tt)
Distinct-append (x ∷ os) o d new = (
  All-append (λ y. y.provider ≢ x.provider) os (o ∷ []) d.0 (new.0, tt),
  Distinct-append os o d.1 new.1,
)

-- A provider that was not seen is none of the options'.
unseen :
    (seen : List ℕ) (p : ℕ) (os : List WalletOption)
    → any (λ q. q == p) seen ≡ false
    → All (λ o. any (λ q. q == o.provider) seen ≡ true) os
    → All (λ x. p ≢ x.provider) os
unseen seen p [] h c = tt
unseen seen p (o ∷ os) h c = (λ e. cc (h, rw (← e) at c.0), unseen seen p os h c.1)

covered-cons :
    (seen : List ℕ) (p : ℕ) (os : List WalletOption)
    → All (λ o. any (λ q. q == o.provider) seen ≡ true) os
    → All (λ o. any (λ q. q == o.provider) (p ∷ seen) ≡ true) os
covered-cons seen p [] c = tt
covered-cons seen p (o ∷ os) c = (ground arith, covered-cons seen p os c.1)

add_provider-IsFound :
    (h : Store) (id label : Text) (o : Option ℕ) (f : Found)
    → ((p : ℕ) → o ≡ some p → (h p).connect ≡ true)
    → IsFound h f
    → IsFound h (add_provider id label o f)
unfolding add_provider
add_provider-IsFound h id label none f can i = i
add_provider-IsFound h id label (some p) f can i = elim (Bool-cases (any (λ q. q == p) f.seen)) [
  | inl known ↦ rw known i
  | inr new ↦ rw new (record {
    counted = omega (arith, i.counted, length-append f.options (option ∷ []));
    connects = All-append (Connects h) f.options (option ∷ []) i.connects (can p refl, tt);
    distinct =
        Distinct-append f.options option i.distinct (unseen f.seen p f.options new i.covered);
    covered =
        All-append (λ o. any (λ q. q == o.provider) (p ∷ f.seen) ≡ true) f.options (option ∷ [])
          (covered-cons f.seen p f.options i.covered) (ground arith, tt);
  })
]
  where
    option : WalletOption
    option = record { id = id; label = label; provider = p }

push_wallet_option-IsFound :
    (h : Store) (id label : Text) (v : Value) (f : Found)
    → IsFound h f
    → IsFound h (push_wallet_option h id label v f)
unfolding push_wallet_option
push_wallet_option-IsFound h id label v f i =
    add_provider-IsFound h id label (unwrap_wallet_provider h v) f (λ p. unwrap-connect h v) i

push_pooled-IsFound :
    (h : Store) (index : ℕ) (v : Value) (f : Found)
    → IsFound h f
    → IsFound h (push_pooled h index v f)
unfolding push_pooled
push_pooled-IsFound h index v f i = elim (Option-cases (unwrap_wallet_provider h v)) [
  | inl absent ↦ rw (push_pooled, absent) i
  | inr (p, there) ↦ rw (push_pooled, there) (push_wallet_option-IsFound h _ _ (ref p) f i)
]

push_pool-IsFound :
    (h : Store) (index : ℕ) (vs : List Value) (f : Found)
    → IsFound h f
    → IsFound h (push_pool h index vs f)
unfolding push_pool
push_pool-IsFound h index [] f i = i
push_pool-IsFound h index (v ∷ vs) f i =
    push_pool-IsFound h (index + 1) vs (push_pooled h index v f) (push_pooled-IsFound h index v f i)

push_global-IsFound :
    (h : Store) (g : Option ℕ) (f : Found) → IsFound h f → IsFound h (push_global h g f)
unfolding push_global
push_global-IsFound h none f i = i
push_global-IsFound h (some g) f i =
    elim f.options
      as (λ os. IsFound h (elim os [
        | [] ↦
            push_wallet_option h (wallet_identity (h g) 0).0 (wallet_identity (h g) 0).1 (ref g) f
        | o ∷ os ↦ f
      ])) [ [] ↦ push_wallet_option-IsFound h _ _ (ref g) f i | o ∷ os ↦ i ]

found_wallets-IsFound : (h : Store) (win : Window) → IsFound h (found_wallets h win)
unfolding found_wallets
found_wallets-IsFound h win = push_global-IsFound h _ _ (
    push_pool-IsFound h 0 _ _ (
      push_wallet_option-IsFound h _ _ _ _ (
        push_wallet_option-IsFound h _ _ _ _ (
          push_wallet_option-IsFound h _ _ _ _
            (record { counted = refl; connects = tt; distinct = tt; covered = tt })))))

-- Every detected wallet is an object that can be connected, and no provider object is listed twice,
-- however the wallet properties of `window` refer to one another.
pub detect_wallet_options-Distinct :
    (h : Store) (win : Window)
    → All (Connects h) (detect_wallet_options h win) × Distinct (detect_wallet_options h win)
unfolding detect_wallet_options
detect_wallet_options-Distinct h win =
    let i = found_wallets-IsFound h win in (i.connects, i.distinct)
