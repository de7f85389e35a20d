-- ===== src/Scripts/Faucet.antt =====
-- faucet.ts: the four actions on the program of the USDC faucet. `callProgram` is `callRpc` of
-- bootstrap.ts but for its line of log, and so are `normalizeIdl` and `getEnvNumber`.
pub mod Laws
use easyclaw.Base.{
  ℕ, Bool, true, false, Option, none, some, List, [], ◌∷◌, ◌++◌, if◌then◌else◌, or_else, or_throw,
  option_map, is_empty, or_nonempty, Text, text, text_eq, trim, Result, ok, err,
}
use easyclaw.Scripts.Platform.{Numbers, Web3, Call, Arg}
use easyclaw.Scripts.Env.{Env, get_env_number}
use easyclaw.Scripts.Idl.{Idl, non_empty, first_file, normalize_idl}
use easyclaw.Scripts.Rpc.{
  Journal, Script, World, pure, lift, ◌>>=◌, ◌>>◌, call_rpc, send_call, unless_exists,
}

-- `FaucetAction`
pub data Action : Type 0 where
  show init claim set_limits : Action

abbrev action_of : Text → Option Action
action_of name =
    if text_eq name (text "show")
    then some show
    else if text_eq name (text "init")
    then some init
    else if text_eq name (text "claim")
    then some claim
    else if text_eq name (text "set-limits")
    then some set_limits
    else none

unfoldable pub get_action : Env → Result Action
get_action env =
    let action = trim (or_else (env (text "FAUCET_ACTION")) (text "show")) in
    or_throw (action_of action) (text "Invalid FAUCET_ACTION: " ++ action)

-- The paths at which `readIdlFromCandidates` looks.
unfoldable pub faucet_idl_candidates : Env → Text → List Text
faucet_idl_candidates env cwd =
    non_empty (option_map trim (env (text "FAUCET_IDL_PATH")))
    ++ (cwd ++ text "/idl/usdc_faucet.json") ∷ (cwd ++ text "/target/idl/usdc_faucet.json") ∷ []

-- The addresses that `main` derives, with what it derives them from.
pub record Faucet (K : Type 0) : Type 0 where
  pub wallet : K
  pub program : K
  pub mint : K
  pub config : K
  pub authority : K

-- What the script uses of `@solana/spl-token`: the address of the token account of an owner, and
-- the call that creates it, paid by the first key.
pub record TokenAccounts (n : Numbers) (w : Web3 n) : Type 0 where
  pub ata_of : w.Key → w.Key → w.Key
  pub create_ata : w.Key → w.Key → w.Key → w.Key → Call w.Key n.Num

module _ (n : Numbers) (w : Web3 n) where
  open n use {Num, of_ℕ}
  open w use {
    Key, Chain, public_key, find_pda, to_buffer, has_account, system_program, token_program,
  }

  abbrev Step : Type 0
  Step = Script (World n w) (Unit {0})

  required : Text → Option Text → Result Key
  required name none = err (text "Missing required env: " ++ name)
  required name (some value) =
      if is_empty value then err (text "Missing required env: " ++ name) else public_key value

  unfoldable pub get_required_pubkey : Env → Text → Result Key
  unfolding required
  get_required_pubkey env name = required name (option_map trim (env name))

  -- `process.env.FAUCET_PROGRAM_ID?.trim() || idl.address`
  unfoldable pub faucet_program : Env → Text → Result Key
  faucet_program env address =
      public_key
        (or_else (or_nonempty (option_map trim (env (text "FAUCET_PROGRAM_ID"))) none) address)

  unfoldable pub derive_faucet : Key → Key → Key → Faucet Key
  derive_faucet wallet program mint = record {
    wallet = wallet;
    program = program;
    mint = mint;
    config = find_pda (text "faucet-config" ∷ to_buffer mint ∷ []) program;
    authority = find_pda (text "faucet-authority" ∷ to_buffer mint ∷ []) program;
  }

  module _ (f : Faucet Key) where
    unfoldable pub initialize_faucet : Num → Num → Step
    initialize_faucet default_amount max_claim_amount = unless_exists n w f.config (
        call_rpc n w f.program (text "initializeFaucet")
          (Arg.bn default_amount ∷ Arg.bn max_claim_amount ∷ [])
          ((text "admin", f.wallet)
            ∷ (text "mint", f.mint)
            ∷ (text "faucetAuthority", f.authority)
            ∷ (text "faucetConfig", f.config)
            ∷ (text "tokenProgram", token_program)
            ∷ (text "systemProgram", system_program)
            ∷ []))

    unfoldable pub update_limits : Num → Num → Step
    update_limits default_amount max_claim_amount =
        call_rpc n w f.program (text "updateFaucetLimits")
          (Arg.bn default_amount ∷ Arg.bn max_claim_amount ∷ [])
          ((text "admin", f.wallet) ∷ (text "faucetConfig", f.config) ∷ [])

    unfoldable pub claim_from_faucet : Num → Key → Step
    claim_from_faucet amount user_ata =
        call_rpc n w f.program (text "claimFromFaucet") (Arg.bn amount ∷ []) (
          (text "user", f.wallet)
          ∷ (text "faucetConfig", f.config)
          ∷ (text "mint", f.mint)
          ∷ (text "faucetAuthority", f.authority)
          ∷ (text "userTokenAccount", user_ata)
          ∷ (text "tokenProgram", token_program)
          ∷ [])

    module _ (spl : TokenAccounts n w) where
      -- `ensureAta` for the wallet itself.
      unfoldable pub ensure_ata : Script (World n w) Key
      unfolding send_call
      ensure_ata s =
          let ata = spl.ata_of f.mint f.wallet in
          let create = send_call n w (spl.create_ata f.wallet ata f.wallet f.mint) in
          if has_account s.chain ata then (ok ata, s) else (create >>= λ done. pure ata) s

      -- The branches of `main`.
      unfoldable pub run_action : Env → Action → Step
      run_action env show = pure tt
      run_action env init = do
        default_amount ← lift (get_env_number n env (text "FAUCET_DEFAULT_AMOUNT") (of_ℕ 1000000))
        max_amount ← lift (get_env_number n env (text "FAUCET_MAX_CLAIM_AMOUNT") (of_ℕ 100000000))
        initialize_faucet default_amount max_amount
      run_action env set_limits = do
        default_amount ← lift (get_env_number n env (text "FAUCET_DEFAULT_AMOUNT") (of_ℕ 1000000))
        max_amount ← lift (get_env_number n env (text "FAUCET_MAX_CLAIM_AMOUNT") (of_ℕ 100000000))
        update_limits default_amount max_amount
      run_action env claim = do
        amount ← lift (get_env_number n env (text "FAUCET_CLAIM_AMOUNT") (of_ℕ 0))
        ata ← ensure_ata
        claim_from_faucet amount ata

-- `main`. `parse` is `JSON.parse` of an IDL, `files` the file system, `cwd` the working directory.
module _ {T : Type 0} (parse : Text → Result (Idl T)) (files : Text → Option Text) (n : Numbers)
    (w : Web3 n) (spl : TokenAccounts n w) where
  unfoldable pub faucet : Env → Text → w.Key → Script (World n w) (Unit {0})
  unfolding first_file
  faucet env cwd wallet = do
    action ← lift (get_action env)
    content ← lift (
        or_throw (first_file parse files (faucet_idl_candidates env cwd))
          (text "usdc_faucet IDL not found. Run `anchor build` first or set FAUCET_IDL_PATH."))
    raw ← lift (parse content)
    program ← lift (faucet_program n w env (normalize_idl raw).address)
    mint ← lift (get_required_pubkey n w env (text "USDC_MINT"))
    run_action n w (derive_faucet n w wallet program mint) spl env action
