-- ===== src/Scripts/Rpc/Steps.antt =====
-- How the steps of a script compose: what they keep, and what a step that returns has made sure.
use easyclaw.Base.{◌≡◌, refl, true, List, [], ◌∷◌, All, Result, ok, err}
use easyclaw.Scripts.Platform.{Numbers, Web3}
use easyclaw.Scripts.Rpc.{Script, World, then_run, ◌>>=◌, ◌>>◌, for_each, lift}

module _ (n : Numbers) (w : Web3 n) where
  open w use {Key, Chain, has_account, has_method, send}

  -- No account that is there is lost.
  abbrev pub Monotone : {A : Type 0} → Script (World n w) A → Type 0
  Monotone m =
      (s : World n w) (k : Key) → has_account s.chain k ≡ true → has_account (m s).1.chain k ≡ true

  -- If the step returns, `P` holds of the cluster that it leaves.
  abbrev pub Ensures : {A : Type 0} → Script (World n w) A → (Chain → Type 0) → Type 0
  Ensures {A} m P = (s : World n w) (a : A) → (m s).0 ≡ ok a → P (m s).1.chain

  -- Accounts that appear do not break `P`.
  abbrev pub Upward : (Chain → Type 0) → Type 0
  Upward P =
      (c d : Chain) → ((k : Key) → has_account c k ≡ true → has_account d k ≡ true) → P c → P d

  then_run-Monotone :
      {A B : Type 0} (f : A → Script (World n w) B) (p : Result A × World n w) (k : Key)
      → ((a : A) → Monotone (f a))
      → has_account p.1.chain k ≡ true
      → has_account (then_run f p).1.chain k ≡ true
  then_run-Monotone f (ok a, s) k hf h = hf a s k h
  then_run-Monotone f (err e, s) k hf h = h

  pub >>=-Monotone :
      {A B : Type 0} (m : Script (World n w) A) (f : A → Script (World n w) B)
      → Monotone m
      → ((a : A) → Monotone (f a))
      → Monotone (m >>= f)
  >>=-Monotone m f hm hf s k h = then_run-Monotone f (m s) k hf (hm s k h)

  pub for_each-Monotone :
      {A : Type 0} (body : A → Script (World n w) (Unit {0})) (xs : List A)
      → ((a : A) → Monotone (body a))
      → Monotone (for_each body xs)
  unfolding for_each
  for_each-Monotone body [] h s k found = found
  for_each-Monotone body (x ∷ xs) h s k found =
      then_run-Monotone (λ _. for_each body xs) (body x s) k (λ _. for_each-Monotone body xs h)
        (h x s k found)

  -- After a first step and a second that keeps accounts, what the first ensures still holds.
  then_run-Ensures :
      {A B : Type 0} (P Q : Chain → Type 0) (f : A → Script (World n w) B)
      (p : Result A × World n w) (b : B)
      → Upward P
      → ((a : A) → Monotone (f a))
      → ((a : A) → Ensures (f a) Q)
      → ((a : A) → p.0 ≡ ok a → P p.1.chain)
      → (then_run f p).0 ≡ ok b
      → P (then_run f p).1.chain × Q (then_run f p).1.chain
  then_run-Ensures P Q f (ok a, s) b up mono next here e =
      (up s.chain (f a s).1.chain (mono a s) (here a refl), next a s b e)
  then_run-Ensures P Q f (err m, s) b up mono next here e = cc

  pub >>=-Ensures :
      {A B : Type 0} (P Q : Chain → Type 0) (m : Script (World n w) A)
      (f : A → Script (World n w) B)
      → Upward P
      → Ensures m P
      → ((a : A) → Monotone (f a))
      → ((a : A) → Ensures (f a) Q)
      → Ensures (m >>= f) (λ c. P c × Q c)
  >>=-Ensures P Q m f up here mono next s b e =
      then_run-Ensures P Q f (m s) b up mono next (here s) e

  pub seq-Monotone :
      {B : Type 0} (m : Script (World n w) (Unit {0})) (k : Script (World n w) B)
      → Monotone m
      → Monotone k
      → Monotone (m >> k)
  unfolding ◌>>◌
  seq-Monotone m k hm hk = >>=-Monotone m (λ _. k) hm (λ _. hk)

  -- One step after another ensures what each does.
  pub seq-Ensures :
      {B : Type 0} (P Q : Chain → Type 0) (m : Script (World n w) (Unit {0}))
      (k : Script (World n w) B)
      → Upward P
      → Ensures m P
      → Monotone k
      → Ensures k Q
      → Ensures (m >> k) (λ c. P c × Q c)
  unfolding ◌>>◌
  seq-Ensures P Q m k up hm mono hk = >>=-Ensures P Q m (λ _. k) up hm (λ _. mono) (λ _. hk)

  pub lift-Monotone :
      {A B : Type 0} (r : Result A) (f : A → Script (World n w) B)
      → ((a : A) → Monotone (f a))
      → Monotone (lift r >>= f)
  lift-Monotone (ok a) f h = h a
  lift-Monotone (err e) f h = λ s k there. there

  pub lift-Ensures :
      {A B : Type 0} (Q : Chain → Type 0) (r : Result A) (f : A → Script (World n w) B)
      → ((a : A) → Ensures (f a) Q)
      → Ensures (lift r >>= f) Q
  lift-Ensures Q (ok a) f h s b e = h a s b e
  lift-Ensures Q (err m) f h s b e = cc

  pub All-Upward :
      {A : Type 0} (P : A → Chain → Type 0) (xs : List A)
      → ((a : A) → Upward (P a))
      → Upward (λ c. All (λ a. P a c) xs)
  All-Upward P [] up c d keep h = tt
  All-Upward P (x ∷ xs) up c d keep h = (up x c d keep h.0, All-Upward P xs up c d keep h.1)

  -- A loop ensures for every element what its body ensures for one.
  pub for_each-Ensures :
      {A : Type 0} (P : A → Chain → Type 0) (body : A → Script (World n w) (Unit {0})) (xs : List A)
      → ((a : A) → Upward (P a))
      → ((a : A) → Monotone (body a))
      → ((a : A) → Ensures (body a) (P a))
      → Ensures (for_each body xs) (λ c. All (λ a. P a c) xs)
  unfolding for_each
  for_each-Ensures P body [] up mono each s b e = tt
  for_each-Ensures P body (x ∷ xs) up mono each s b e =
      then_run-Ensures (P x) (λ c. All (λ a. P a c) xs) (λ _. for_each body xs) (body x s) b (up x)
        (λ _. for_each-Monotone body xs mono) (λ _. for_each-Ensures P body xs up mono each)
        (λ u h. each x s u h) e

  pub has_account-Upward : (k : Key) → Upward (λ c. has_account c k ≡ true)
  has_account-Upward k c d keep h = keep k h
