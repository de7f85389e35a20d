-- ===== src/Scripts/Rpc/Laws.antt =====
-- About `callRpc` and `accountExists` on a cluster: what is relied on of it, and how steps compose.
use easyclaw.Base.{
  ◌≡◌, refl, sym, ap, subst, ◌∙◌, ◌⊎◌, inl, inr, Bool, true, Option, none, some, List, [], ◌∷◌,
  ◌++◌, arith, append-nil, All, Bool-cases, any, find, Text, text, Result, ok, err, Dict, lookup,
  text_eq, filter, not,
}
use easyclaw.Scripts.Platform.{Numbers, Web3, Arg, Call}
use easyclaw.Scripts.Names.{
  to_camel, to_snake, add_account_aliases, unique, method_candidates, resolve_method,
}
use easyclaw.Scripts.Names.Laws.{IsCamel, to_camel_id, to_camel-to_snake}
use easyclaw.Scripts.Rpc.{Script, World, record_call, invoke, call_rpc, unless_exists}
use easyclaw.Scripts.Rpc.Steps.{Monotone, Ensures}

pub Result-cases {ℓ} :
    {A : Type ℓ} (r : Result A) → ((a : A) × (r ≡ ok a)) ⊎ ((e : Text) × (r ≡ err e))
Result-cases (ok a) = inl (a, refl)
Result-cases (err e) = inr (e, refl)

-- The account that each initialising method of the programs creates.
abbrev pub initialized : Dict Text
initialized =
    (text "initializeGlobal", text "globalConfig")
    ∷ (text "createMarket", text "market")
    ∷ (text "initializePool", text "pool")
    ∷ (text "initializeEngine", text "engineConfig")
    ∷ (text "initializeMarketFundingState", text "marketFundingState")
    ∷ (text "initKeeperRebate", text "keeperRebate")
    ∷ (text "initializeFaucet", text "faucetConfig")
    ∷ []

-- The methods that the scripts call.
abbrev pub script_methods : List Text
script_methods =
    text "initializeGlobal"
    ∷ text "addKeeper"
    ∷ text "createMarket"
    ∷ text "initializePool"
    ∷ text "initializeEngine"
    ∷ text "initializeMarketFundingState"
    ∷ text "initKeeperRebate"
    ∷ text "initializeFaucet"
    ∷ text "updateFaucetLimits"
    ∷ text "claimFromFaucet"
    ∷ []

find-All {ℓ} :
    {A : Type 0} (P : A → Type ℓ) (p : A → Bool) (xs : List A) {r : A}
    → All P xs
    → find p xs ≡ some r
    → P r
find-All P p [] h e = cc
find-All P p (x ∷ xs) {r} h e = elim (Bool-cases (p x)) [
  | inl hit ↦ let same : x ≡ r = ground arith in subst P same h.0
  | inr miss ↦ find-All P p xs h.1 (rw (miss, find) at e)
]

filter-keeps_All {ℓ} :
    {A : Type 0} (P : A → Type ℓ) (p : A → Bool) (xs : List A) → All P xs → All P (filter p xs)
filter-keeps_All P p [] h = h
filter-keeps_All P p (x ∷ xs) h = elim (Bool-cases (p x)) [
  | inl keep ↦ rw (keep, filter) (h.0, filter-keeps_All P p xs h.1)
  | inr drop ↦ rw (drop, filter) (filter-keeps_All P p xs h.1)
]

unique-All {ℓ} : (P : Text → Type ℓ) (xs : List Text) → All P xs → All P (unique xs)
unfolding unique
unique-All P [] h = h
unique-All P (x ∷ xs) h =
    (h.0, filter-keeps_All P (λ y. not (text_eq x y)) (unique xs) (unique-All P xs h.1))

-- Whatever spelling of a camel-case name `callRpc` finds in a program, it is a spelling of the name
-- that was asked for.
pub to_camel-resolve_method :
    (has : Text → Bool) (name : Text) {found : Text}
    → IsCamel name
    → resolve_method has name ≡ some found
    → to_camel found ≡ name
to_camel-resolve_method has name h e =
    find-All (λ m. to_camel m ≡ name) has (method_candidates name)
      (unfold method_candidates in
        unique-All (λ m. to_camel m ≡ name) (name ∷ to_camel name ∷ to_snake name ∷ [])
          (
            to_camel_id name h,
            (ap to_camel (to_camel_id name h) ∙ to_camel_id name h, (to_camel-to_snake name h, tt)),
          ))
      (unfold resolve_method in e)

-- What the scripts rely on of the cluster: a call of one of their methods removes no account (other
-- methods of the programs may), and a call that succeeds has created the account that its method
-- initialises.
pub record ClusterLaws (n : Numbers) (w : Web3 n) : Type 0 where
  pub keeps :
      (call : Call w.Key n.Num) (chain : w.Chain) (k : w.Key)
      → any (text_eq (to_camel call.method)) script_methods ≡ true
      → w.has_account chain k ≡ true
      → w.has_account (w.send call chain).1 k ≡ true
  pub creates :
      (call : Call w.Key n.Num) (chain : w.Chain) (sig field : Text) (k : w.Key)
      → (w.send call chain).0 ≡ ok sig
      → lookup (to_camel call.method) initialized ≡ some field
      → lookup field call.accounts ≡ some k
      → w.has_account (w.send call chain).1 k ≡ true

module _ (n : Numbers) (w : Web3 n) where
  open w use {Key, Chain, has_account, has_method, send}

  module _ (laws : ClusterLaws n w) where
    record_call-Monotone :
        (call : Call Key n.Num) (s : World n w) (p : Result Text × Chain) (k : Key)
        → has_account p.1 k ≡ true
        → has_account (record_call n w call s p).1.chain k ≡ true
    record_call-Monotone call s (ok sig, after) k h = h
    record_call-Monotone call s (err e, after) k h = h

    module _ (program : Key) (method : Text) (args : List (Arg Key n.Num))
        (accounts : Dict Key) where
      abbrev sent_as : Text → Call Key n.Num
      sent_as name = record {
        program = program;
        method = name;
        args = args;
        accounts = add_account_aliases accounts;
      }

      invoke-Monotone :
          (found : Option Text)
          → any (text_eq method) script_methods ≡ true
          → ((name : Text) → found ≡ some name → to_camel name ≡ method)
          → Monotone n w (invoke n w program method args accounts found)
      unfolding invoke
      invoke-Monotone none known spelt s k h = h
      invoke-Monotone (some name) known spelt s k h =
          record_call-Monotone (sent_as name) s (send (sent_as name) s.chain) k
            (laws.keeps (sent_as name) s.chain k (rw (spelt name refl) known) h)

      pub call_rpc-Monotone :
          IsCamel method
          → any (text_eq method) script_methods ≡ true
          → Monotone n w (call_rpc n w program method args accounts)
      unfolding call_rpc
      call_rpc-Monotone camel known =
          invoke-Monotone (resolve_method (has_method program) method) known
            (λ name e. to_camel-resolve_method (has_method program) method camel e)

      record_call-eq-ok :
          (call : Call Key n.Num) (s : World n w) (p : Result Text × Chain) (u : Unit {0})
          → (record_call n w call s p).0 ≡ ok u
          → (sig : Text) × (p.0 ≡ ok sig) × ((record_call n w call s p).1.chain ≡ p.1)
      record_call-eq-ok call s (ok sig, after) u e = (sig, refl, refl)
      record_call-eq-ok call s (err m, after) u e = cc

      invoke-creates :
          (found : Option Text) (field : Text) (k : Key)
          → ((name : Text) → found ≡ some name → to_camel name ≡ method)
          → lookup method initialized ≡ some field
          → lookup field (add_account_aliases accounts) ≡ some k
          → Ensures n w
              (invoke n w program method args accounts found)
              (λ c. has_account c k ≡ true)
      unfolding invoke
      invoke-creates none field k spelt init listed s u e = cc
      invoke-creates (some name) field k spelt init listed s u e =
          let call = sent_as name in
          let (sig, sent, same) = record_call-eq-ok call s (send call s.chain) u e in
          rw same (laws.creates call s.chain sig field k sent (rw (spelt name refl) init) listed)

      -- On a cluster that loses no account to the scripts' calls and on which a successful initialising call creates
      -- the account that it is about, a `callRpc` of an initialising method in camel case that
      -- returns leaves the account that its table lists, in whichever spelling the program has it.
      pub call_rpc-creates :
          (field : Text) (k : Key)
          → IsCamel method
          → lookup method initialized ≡ some field
          → lookup field (add_account_aliases accounts) ≡ some k
          → Ensures n w (call_rpc n w program method args accounts) (λ c. has_account c k ≡ true)
      unfolding call_rpc
      call_rpc-creates field k camel init listed =
          invoke-creates (resolve_method (has_method program) method) field k
            (λ name e. to_camel-resolve_method (has_method program) method camel e) init listed

      record_call-sent :
          (call : Call Key n.Num) (s : World n w) (p : Result Text × Chain)
          → (record_call n w call s p).1.sent ≡ s.sent ++ call ∷ []
      record_call-sent call s (ok sig, after) = refl
      record_call-sent call s (err e, after) = refl

      abbrev Sends : World n w → World n w → Type 0
      Sends s t =
          (calls : List (Call Key n.Num)) × (t.sent ≡ s.sent ++ calls)
          × All (λ call. to_camel call.method ≡ method) calls

      invoke-Sends :
          (found : Option Text) (s : World n w)
          → ((name : Text) → found ≡ some name → to_camel name ≡ method)
          → Sends s (invoke n w program method args accounts found s).1
      unfolding invoke
      invoke-Sends none s spelt = ([], sym (append-nil s.sent), tt)
      invoke-Sends (some name) s spelt = (
        sent_as name ∷ [],
        record_call-sent (sent_as name) s (send (sent_as name) s.chain),
        (spelt name refl, tt),
      )

      -- On a cluster that loses no account to the scripts' calls and on which a successful initialising call creates
      -- the account that it is about, `callRpc` of a camel-case name sends nothing, or calls of the
      -- method that it is given, in some spelling.
      pub call_rpc-sends :
          (s : World n w)
          → IsCamel method
          → (calls : List (Call Key n.Num)) × ((call_rpc n w program method args accounts s).1.sent
              ≡ s.sent ++ calls)
            × All (λ call. to_camel call.method ≡ method) calls
      unfolding call_rpc
      call_rpc-sends s camel =
          invoke-Sends (resolve_method (has_method program) method) s
            (λ name e. to_camel-resolve_method (has_method program) method camel e)

    pub unless_exists-Monotone :
        (key : Key) (create : Script (World n w) (Unit {0}))
        → Monotone n w create
        → Monotone n w (unless_exists n w key create)
    unfolding unless_exists
    unless_exists-Monotone key create mono s k h = elim (Bool-cases (has_account s.chain key)) [
      | inl there ↦ rw there h
      | inr absent ↦ rw absent (mono s k h)
    ]

    pub unless_exists-Ensures :
        (key : Key) (create : Script (World n w) (Unit {0}))
        → Ensures n w create (λ c. has_account c key ≡ true)
        → Ensures n w (unless_exists n w key create) (λ c. has_account c key ≡ true)
    unfolding unless_exists
    unless_exists-Ensures key create made s u e = elim (Bool-cases (has_account s.chain key)) [
      | inl there ↦ rw there there
      | inr absent ↦ rw absent (made s u (rw absent at e))
    ]
