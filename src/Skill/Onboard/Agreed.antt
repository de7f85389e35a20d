-- ===== src/Skill/Onboard/Agreed.antt =====
-- When the onboarding starts an agent.
use easyclaw.Base.{
  ◌≡◌, refl, sym, ap, subst, ◌∙◌, ◌⊎◌, inl, inr, Bool, true, false, ◌||◌, some, List, [], ◌∷◌, ◌++◌,
  append_assoc, if◌then◌else◌, Text, text, Dict, ok, err, is_some,
}
use easyclaw.Numbers.{Numbers}
use easyclaw.Skill.Words.{ArgValue}
use easyclaw.Skill.Args.{parse_args}
use easyclaw.Skill.Plan.{option}
use easyclaw.Skill.Agent.Values.{Floats}
use easyclaw.Skill.Onboard.Answers.{
  Session, Started, Outcome, done, threw, waiting, Dialog, pure, continue, ◌>>=◌, answer_or, ask,
  ask_until, settle, yes_no, ask_yes_no, registration, wait_for_registration,
}
use easyclaw.Skill.Onboard.Answers.Laws.{Careful, Ends, ask_until-Ends}
use easyclaw.Skill.Onboard.Wallets.{System, Wallet, choose_wallet}
use easyclaw.Skill.Onboard.Trade.{TradeConfig, collect_trade_config, build_autotrade_args}
use easyclaw.Skill.Onboard.{
  persist_wallet_selection, capture_strategy_prompt, strategy_path, run_autotrade, start_if,
  onboard, main,
}
use easyclaw.Skill.Onboard.Steps.{
  choose_wallet-Careful, persist_wallet_selection-Careful, capture_strategy_prompt-Careful,
  strategy_path-Careful, collect_trade_config-Careful,
}

-- The last answer that was taken says yes.
abbrev pub Confirmed : List Text → List Text → Type 0
Confirmed answers rest =
    (before : List Text) × (last : Text) × (answers ≡ before ++ (last ∷ rest))
    × (yes_no false (answer_or [] last) ≡ true)

-- Before it one said that the registration is done.
abbrev pub Registered : List Text → List Text → Type 0
Registered answers rest =
    (before : List Text) × (ready : Text) × (later : List Text) × (answers
      ≡ before ++ (ready ∷ later))
    × (registration ready ≡ some (ok tt))
    × Confirmed later rest

abbrev Agreed : Bool → List Text → List Text → Type 0
Agreed true = Registered
Agreed false = Confirmed

Agreed-append :
    (b : Bool) (used answers rest : List Text)
    → Agreed b answers rest
    → Agreed b (used ++ answers) rest
Agreed-append true used answers rest (before, ready, later, split, settles, h) = (
  used ++ before,
  ready,
  later,
  ap (λ l. used ++ l) split ∙ sym (append_assoc used before (ready ∷ later)),
  settles,
  h,
)
Agreed-append false used answers rest (before, last, split, h) =
    (used ++ before, last, ap (λ l. used ++ l) split ∙ sym (append_assoc used before _), h)

module _ (n : Numbers) (m : Floats n) (system : System n) where
  open n use {Num}

  -- What a run that starts an agent has gone through, and the agent.
  abbrev Trace : Type 1
  Trace = Session → Started → Type 0

  -- A dialog that returned a value, and what comes after it.
  abbrev pub After : {A : Type 0} → Dialog A → (A → Trace) → Trace
  After first later s run = (a : _) × ((first s).0 ≡ done a) × later a (first s).1 run

  -- The agent of a configuration, with the wallet.
  abbrev pub Runs : TradeConfig Num → Text → Wallet → Trace
  Runs config path wallet s run =
      run ≡ (system.agent_script ∷ build_autotrade_args n m config path, wallet.wallet_path)

  -- The agent has the wallet that was chosen, the configuration that was collected, and the path of the
  -- strategy that was captured.
  abbrev pub Chosen : Dict ArgValue → Trace
  Chosen args = After (choose_wallet n system args) λ wallet.
      After (persist_wallet_selection n m system wallet.wallet_path) λ saved.
        After wait_for_registration λ registered.
          After (capture_strategy_prompt n m system args) λ strategy.
            After (strategy_path n m system strategy wallet) λ path.
              After (collect_trade_config n m args)
                λ config. After (ask_yes_no false) λ confirmed. Runs config path wallet

  -- Nothing was started, or one agent, on agreement.
  abbrev pub Starts : (List Text → List Text → Type 0) → Trace → Session → Session → Type 0
  Starts Agreement trace s t =
      (t.started ≡ s.started)
      ⊎ ((run : Started) × (t.started ≡ s.started ++ run ∷ [])
          × trace s run
          × Agreement s.answers t.answers)

  -- A step that starts nothing comes before.
  Starts-continue :
      {A : Type 0} (b : Bool) (first : Dialog A) (later : A → Trace) (o : Outcome A)
      (next : A → Dialog (Unit {0})) (s t : Session)
      → (first s).0 ≡ o
      → (first s).1 ≡ t
      → (used : List Text) × (s.answers ≡ used ++ t.answers)
      → t.started ≡ s.started
      → ((a : A) (t : Session) → Starts (Agreed b) (later a) t (next a t).1)
      → Starts (Agreed b) (After first later) s (continue o next t).1
  unfolding continue
  Starts-continue b first later (threw message) next s t eo et taken same h = inl same
  Starts-continue b first later waiting next s t eo et taken same h = inl same
  Starts-continue b first later (done a) next s t eo et (used, e) same h = elim (h a t) [
    | inl none_started ↦ inl (none_started ∙ same)
    | inr (run, starts, is_run, agreed) ↦ inr (
      run,
      starts ∙ ap (λ l. l ++ run ∷ []) same,
      (a, eo, subst (λ u. later a u run) (sym et) is_run),
      subst (λ l. Agreed b l (next a t).1.answers) (sym e)
          (Agreed-append b used t.answers _ agreed),
    )
  ]

  record Agrees (b : Bool) (trace : Trace) (dialog : Dialog (Unit {0})) : Type 0 where
    starts : (s : Session) → Starts (Agreed b) trace s (dialog s).1

  Agrees->>= :
      {A : Type 0} (b : Bool) (trace : A → Trace) (first : Dialog A) (next : A → Dialog (Unit {0}))
      → Careful first
      → ((a : A) → Agrees b (trace a) (next a))
      → Agrees b (After first trace) (first >>= next)
  unfolding ◌>>=◌
  Agrees->>= b trace first next careful later = record {
    starts = λ s.
        Starts-continue b first trace (first s).0 next s (first s).1 refl refl (careful.takes s)
          (careful.starts_none s) (λ a. (later a).starts);
  }

  started_if :
      (b : Bool) (config : TradeConfig Num) (path : Text) (wallet : Wallet) (s : Session)
      (last : Text) (rest : List Text)
      → yes_no false (answer_or [] last) ≡ b
      → Starts Confirmed
          (After (ask_yes_no false) (λ confirmed. Runs config path wallet))
          (record s { answers = last ∷ rest })
          (start_if n m system b config path wallet.wallet_path (record s { answers = rest })).1
  unfolding start_if run_autotrade ask_yes_no ◌>>=◌ continue ask ask_until settle pure
  started_if false config path wallet s last rest e = inl refl
  started_if true config path wallet s last rest e =
      inr (_, refl, (_, refl, refl), ([], last, refl, e))

  confirm-Agrees :
      (config : TradeConfig Num) (path : Text) (wallet : Wallet)
      → Agrees false
          (After (ask_yes_no false) (λ confirmed. Runs config path wallet))
          (ask_yes_no false >>= λ b. start_if n m system b config path wallet.wallet_path)
  unfolding ask_yes_no ◌>>=◌ continue ask ask_until settle pure
  confirm-Agrees config path wallet = record { starts = λ s. go s s.answers }
    where
      go :
          (s : Session) (answers : List Text)
          → Starts Confirmed
              (After (ask_yes_no false) (λ confirmed. Runs config path wallet))
              (record s { answers = answers })
              ((ask_yes_no false >>= λ b. start_if n m system b config path wallet.wallet_path)
                (record s { answers = answers })).1
      go s [] = inl refl
      go s (last ∷ rest) =
          started_if (yes_no false (answer_or [] last)) config path wallet s last rest refl

  registered-Agrees :
      (trace : Unit {0} → Trace) (next : Unit {0} → Dialog (Unit {0}))
      → ((u : Unit {0}) → Agrees false (trace u) (next u))
      → Agrees true (After wait_for_registration trace) (wait_for_registration >>= next)
  unfolding wait_for_registration ◌>>=◌ continue
  registered-Agrees trace next later = record {
    starts = λ s.
        let (ends, files, none_started) = ask_until-Ends registration s in
        go s (ask_until registration s).0 (ask_until registration s).1 refl refl ends none_started;
  }
    where
      go :
          (s : Session) (o : Outcome (Unit {0})) (t : Session)
          → (ask_until registration s).0 ≡ o
          → (ask_until registration s).1 ≡ t
          → Ends registration s.answers o t.answers
          → t.started ≡ s.started
          → Starts Registered (After wait_for_registration trace) s (continue o next t).1
      go s (done u) t eo et (inl (before, ready, ok v, split, unsettled, settles, e)) same =
          elim ((later u).starts t) [
            | inl none_started ↦ inl (none_started ∙ same)
            | inr (run, starts, is_run, confirmed) ↦ inr (
              run,
              starts ∙ ap (λ l. l ++ run ∷ []) same,
              (u, eo, subst (λ v. trace u v run) (sym et) is_run),
              (before, ready, t.answers, split, settles, confirmed),
            )
          ]
      go s (done u) t eo et (inl (before, ready, err v, split, unsettled, settles, e)) same = cc
      go s (done u) t eo et (inr (unsettled, e, rest)) same = cc
      go s (threw message) t eo et ends same = inl same
      go s waiting t eo et ends same = inl same

  onboard-Agrees : (args : Dict ArgValue) → Agrees true (Chosen args) (onboard n m system args)
  unfolding onboard
  onboard-Agrees args =
      search
        (
          Agrees->>=,
          registered-Agrees,
          confirm-Agrees,
          choose_wallet-Careful n m system,
          persist_wallet_selection-Careful n m system,
          capture_strategy_prompt-Careful n m system,
          strategy_path-Careful n m system,
          collect_trade_config-Careful n m system,
        )
        depth 10

  -- Whatever the command line, the files and the answers, the onboarding starts no agent, or one. Then
  -- the wallet was chosen and saved, the registration confirmed, and the strategy and the trade were
  -- asked for; the agent's command line is of the configuration that was collected and of the strategy's
  -- path, and its environment has the wallet that was chosen; and it was started after an answer that
  -- said that the registration is done and a later one, the last that was taken, that said yes.
  pub main-Starts :
      (argv : List Text) (s : Session)
      → Starts Registered (Chosen (parse_args argv)) s (main n m system argv s).1
  unfolding main
  main-Starts argv s = go (
      is_some (option (text "help") (parse_args argv))
      || is_some (option (text "h") (parse_args argv)))
    where
      go :
          (b : Bool)
          → Starts Registered
              (Chosen (parse_args argv))
              s
              ((if b then pure tt else onboard n m system (parse_args argv)) s).1
      go true = unfold pure in inl refl
      go false = (onboard-Agrees (parse_args argv)).starts s
