-- ===== src/Scripts/Faucet/Laws.antt =====
-- What the actions of the faucet script send, and what its initialisation leaves.
use easyclaw.Base.{
  ℕ, ◌≡◌, refl, sym, ap, ◌∙◌, true, Bool-cases, inl, inr, Option, none, some, List, [], ◌∷◌, ◌++◌,
  append-nil, append_assoc, ◌⊎◌, false, if-holds, All, arith, Text, text, Result, ok, err,
}
use easyclaw.Scripts.Platform.{Numbers, Web3, Call}
use easyclaw.Scripts.Env.{Env, get_env_number}
use easyclaw.Scripts.Names.{to_camel, concrete_tables}
use easyclaw.Scripts.Rpc.{
  Script, World, then_run, ◌>>=◌, lift, pure, record_call, send_call, unless_exists,
}
use easyclaw.Scripts.Rpc.Laws.{ClusterLaws, call_rpc-sends, call_rpc-creates, unless_exists-Ensures}
use easyclaw.Scripts.Rpc.Steps.{Ensures}
use easyclaw.Scripts.Faucet.{
  Action, show, init, claim, set_limits, Faucet, TokenAccounts, initialize_faucet, update_limits,
  claim_from_faucet, ensure_ata, run_action,
}

-- The method that an action may call.
abbrev pub method_of : Action → Option Text
method_of show = none
method_of init = some (text "initializeFaucet")
method_of claim = some (text "claimFromFaucet")
method_of set_limits = some (text "updateFaucetLimits")

module _ (n : Numbers) (w : Web3 n) (laws : ClusterLaws n w) (f : Faucet w.Key) where
  open w use {Key, Chain, has_account}

  -- Between the two states only calls of the method were sent.
  abbrev SendsOwn : Option Text → World n w → World n w → Type 0
  SendsOwn method s t =
      (calls : List (Call Key n.Num)) × (t.sent ≡ s.sent ++ calls)
      × All (λ call. some (to_camel call.method) ≡ method) calls

  unchanged-Sends : (method : Option Text) (s t : World n w) → t.sent ≡ s.sent → SendsOwn method s t
  unchanged-Sends method s t same = ([], same ∙ sym (append-nil s.sent), tt)

  then_run-Sends :
      {A : Type 0} (method : Option Text) (k : A → Script (World n w) (Unit {0})) (s : World n w)
      (p : Result A × World n w)
      → p.1.sent ≡ s.sent
      → ((a : A) (t : World n w) → SendsOwn method t (k a t).1)
      → SendsOwn method s (then_run k p).1
  then_run-Sends method k s (ok a, t) same h =
      let (calls, sent, named) = h a t in (calls, sent ∙ ap (λ l. l ++ calls) same, named)
  then_run-Sends method k s (err e, t) same h = unchanged-Sends method s t same

  All-some :
      (method : Text) (calls : List (Call Key n.Num))
      → All (λ call. to_camel call.method ≡ method) calls
      → All (λ call. some (to_camel call.method) ≡ some method) calls
  All-some method [] h = tt
  All-some method (call ∷ calls) h = (ap some h.0, All-some method calls h.1)

  initialize_faucet-Sends :
      (d m : n.Num) (s : World n w)
      → SendsOwn (some (text "initializeFaucet")) s (initialize_faucet n w f d m s).1
  unfolding initialize_faucet unless_exists concrete_tables
  initialize_faucet-Sends d m s = elim (Bool-cases (has_account s.chain f.config)) [
    | inl there ↦ rw there (unchanged-Sends (some (text "initializeFaucet")) s s refl)
    | inr absent ↦
        let (calls, sent, named) =
          call_rpc-sends n w laws f.program (text "initializeFaucet") _ _ s (ground arith) in
        rw absent (calls, sent, All-some (text "initializeFaucet") calls named)
  ]

  update_limits-Sends :
      (d m : n.Num) (s : World n w)
      → SendsOwn (some (text "updateFaucetLimits")) s (update_limits n w f d m s).1
  unfolding update_limits concrete_tables
  update_limits-Sends d m s =
      let (calls, sent, named) =
        call_rpc-sends n w laws f.program (text "updateFaucetLimits") _ _ s (ground arith) in
      (calls, sent, All-some (text "updateFaucetLimits") calls named)

  claim_from_faucet-Sends :
      (amount : n.Num) (ata : Key) (s : World n w)
      → SendsOwn (some (text "claimFromFaucet")) s (claim_from_faucet n w f amount ata s).1
  unfolding claim_from_faucet concrete_tables
  claim_from_faucet-Sends amount ata s =
      let (calls, sent, named) =
        call_rpc-sends n w laws f.program (text "claimFromFaucet") _ _ s (ground arith) in
      (calls, sent, All-some (text "claimFromFaucet") calls named)

  initialize_faucet-Ensures :
      (d m : n.Num) → Ensures n w (initialize_faucet n w f d m) (λ c. has_account c f.config ≡ true)
  unfolding initialize_faucet concrete_tables
  initialize_faucet-Ensures d m = unless_exists-Ensures n w laws _ _ (
      call_rpc-creates n w laws f.program (text "initializeFaucet") _ _ (text "faucetConfig") _
        (ground arith) refl refl)

  -- The step has created the configuration when it returns, and does nothing the next time.
  abbrev Twice : Script (World n w) (Unit {0}) → Type 0
  Twice m =
      (s : World n w)
      → (m s).0 ≡ ok tt
      → (has_account (m s).1.chain f.config ≡ true) × (m (m s).1 ≡ (ok tt, (m s).1))

  initialize_faucet_idle :
      (d m : n.Num) (s : World n w)
      → has_account s.chain f.config ≡ true
      → initialize_faucet n w f d m s ≡ (ok tt, s)
  unfolding initialize_faucet unless_exists
  initialize_faucet_idle d m s there = rw there

  initialize_faucet-Twice : (d m : n.Num) → Twice (initialize_faucet n w f d m)
  initialize_faucet-Twice d m s e =
      let made = initialize_faucet-Ensures d m s tt e in
      (made, initialize_faucet_idle d m (initialize_faucet n w f d m s).1 made)

  lift-Twice :
      {A : Type 0} (r : Result A) (k : A → Script (World n w) (Unit {0}))
      → ((a : A) → Twice (k a))
      → Twice (lift r >>= k)
  lift-Twice (ok a) k h s e = h a s e
  lift-Twice (err m) k h s e = cc

  module _ (spl : TokenAccounts n w) where
    abbrev amount : Env → Text → ℕ → Result n.Num
    amount env name v = get_env_number n env name (n.of_ℕ v)

    -- A step that reads the two limits first.
    two_amounts :
        (step : n.Num → n.Num → Script (World n w) (Unit {0})) (method : Option Text)
        → ((d m : n.Num) (s : World n w) → SendsOwn method s (step d m s).1)
        → (env : Env) (s : World n w)
        → SendsOwn method s
            ((lift (amount env (text "FAUCET_DEFAULT_AMOUNT") 1000000) >>= λ d.
                lift (amount env (text "FAUCET_MAX_CLAIM_AMOUNT") 100000000) >>= step d)
              s).1
    two_amounts step method h env s =
        let most = amount env (text "FAUCET_MAX_CLAIM_AMOUNT") 100000000 in
        then_run-Sends method (λ d. lift most >>= step d) s
          (amount env (text "FAUCET_DEFAULT_AMOUNT") 1000000, s) refl
          (λ d t. then_run-Sends method (step d) t (most, t) refl (h d))

    -- What creates the token account of the wallet.
    abbrev pub creation : Call Key n.Num
    creation = spl.create_ata f.wallet (spl.ata_of f.mint f.wallet) f.wallet f.mint

    -- Between the two states were sent: what creates the token account, by a claim and where the account
    -- was missing, or nothing; and then calls of the action's method.
    abbrev pub Sends : Action → World n w → World n w → Type 0
    Sends action s t =
        (first : List (Call Key n.Num)) × (calls : List (Call Key n.Num)) × (t.sent
          ≡ s.sent ++ (first ++ calls))
        × ((first ≡ [])
            ⊎ ((action ≡ claim)
                × (has_account s.chain (spl.ata_of f.mint f.wallet) ≡ false)
                × (first ≡ creation ∷ [])))
        × All (λ call. some (to_camel call.method) ≡ method_of action) calls

    own-Sends :
        (action : Action) (s t : World n w) → SendsOwn (method_of action) s t → Sends action s t
    own-Sends action s t (calls, sent, named) = ([], calls, sent, inl refl, named)

    -- After the creation was sent.
    created-Sends :
        (a : n.Num) (s : World n w) (p : Result Text × Chain)
        → has_account s.chain (spl.ata_of f.mint f.wallet) ≡ false
        → Sends claim s
            (then_run (claim_from_faucet n w f a) (
              then_run
                (λ done. pure (spl.ata_of f.mint f.wallet))
                (record_call n w creation s p))).1
    created-Sends a s (ok sig, after) missing =
        let made : World n w = record { chain = after; sent = s.sent ++ creation ∷ [] } in
        let (calls, sent, named) = claim_from_faucet-Sends a (spl.ata_of f.mint f.wallet) made in
        (
          creation ∷ [],
          calls,
          sent ∙ append_assoc s.sent (creation ∷ []) calls,
          inr (refl, missing, refl),
          named,
        )
    created-Sends a s (err e, after) missing =
        (creation ∷ [], [], refl, inr (refl, missing, refl), tt)

    claim-Sends :
        (a : n.Num) (s : World n w)
        → Sends claim s ((ensure_ata n w f spl >>= claim_from_faucet n w f a) s).1
    unfolding ensure_ata send_call
    claim-Sends a s =
        let ata = spl.ata_of f.mint f.wallet in
        if-holds (λ p. Sends claim s (then_run (claim_from_faucet n w f a) p).1)
          (has_account s.chain ata) (ok ata, s) _
          (λ there.
            own-Sends claim s (claim_from_faucet n w f a ata s).1 (claim_from_faucet-Sends a ata s))
          (λ absent. created-Sends a s (w.send creation s.chain) absent)

    -- On a cluster that loses no account to the scripts' calls and on which a successful initialising
    -- call creates the account that it is about, an action of the faucet script, however it ends, sends
    -- nothing or calls of its own method, in some spelling; but a claim first sends what creates the
    -- wallet's token account, and only when that is missing. To show the addresses sends nothing.
    pub run_action-Sends :
        (env : Env) (action : Action) (s : World n w)
        → Sends action s (run_action n w f spl env action s).1
    unfolding run_action
    run_action-Sends env show s = own-Sends show s s (unchanged-Sends none s s refl)
    run_action-Sends env init s = own-Sends init s (run_action n w f spl env init s).1 (
        two_amounts (initialize_faucet n w f) (some (text "initializeFaucet"))
          initialize_faucet-Sends env s)
    run_action-Sends env claim s = go (amount env (text "FAUCET_CLAIM_AMOUNT") 0)
      where
        go :
            (r : Result n.Num)
            → Sends claim s
                ((lift r >>= λ a. ensure_ata n w f spl >>= claim_from_faucet n w f a) s).1
        go (ok a) = claim-Sends a s
        go (err e) = own-Sends claim s s (unchanged-Sends (method_of claim) s s refl)
    run_action-Sends env set_limits s =
        own-Sends set_limits s (run_action n w f spl env set_limits s).1 (
          two_amounts (update_limits n w f) (some (text "updateFaucetLimits")) update_limits-Sends
            env s)

    -- On a cluster that loses no account to the scripts' calls and on which a successful initialising call creates the
    -- account that it is about, an initialisation of the faucet that returns has left the faucet's
    -- configuration, and the next one returns without changing or sending anything.
    pub run_action-init :
        (env : Env) (s : World n w)
        → (run_action n w f spl env init s).0 ≡ ok tt
        → (has_account (run_action n w f spl env init s).1.chain f.config ≡ true)
          × (run_action n w f spl env init (run_action n w f spl env init s).1
              ≡ (ok tt, (run_action n w f spl env init s).1))
    unfolding run_action
    run_action-init env =
        let most = amount env (text "FAUCET_MAX_CLAIM_AMOUNT") 100000000 in
        lift-Twice (amount env (text "FAUCET_DEFAULT_AMOUNT") 1000000)
          (λ d. lift most >>= initialize_faucet n w f d)
          (λ d. lift-Twice most (initialize_faucet n w f d) (initialize_faucet-Twice d))
