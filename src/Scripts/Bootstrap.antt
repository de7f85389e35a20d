-- ===== src/Scripts/Bootstrap.antt =====
-- bootstrap.ts: `main`, from what it reads from the environment (Config) and the addresses that it
-- derives (Addresses) to the transactions that it sends (Phases).
pub mod Config
pub mod Addresses
pub mod Phases
use easyclaw.Base.{◌≡◌, Option, Text, text, Result, option_map}
use easyclaw.Scripts.Platform.{Numbers, Web3}
use easyclaw.Scripts.Env.{Env}
use easyclaw.Scripts.Idl.{Idl, read_idl, normalize_idl}
use easyclaw.Scripts.Rpc.{Script, World, lift, ◌>>=◌}
use Config.{read_config}
use Phases.{run_phases}

-- `parse` is `JSON.parse` of an IDL, `files` the file system, `cwd` the working directory and
-- `wallet` the key of the provider's wallet.
module _ {T : Type 0} (parse : Text → Result (Idl T)) (files : Text → Option Text) (n : Numbers)
    (w : Web3 n) where
  unfoldable pub bootstrap : Env → Text → w.Key → Script (World n w) (Unit {0})
  bootstrap env cwd wallet = do
    registry_raw ← lift (read_idl parse files env cwd (text "market_registry"))
    vault_raw ← lift (read_idl parse files env cwd (text "lp_vault"))
    engine_raw ← lift (read_idl parse files env cwd (text "order_engine"))
    c ← lift (
        read_config n w env wallet (normalize_idl registry_raw).address
          (normalize_idl vault_raw).address (normalize_idl engine_raw).address)
    run_phases n w c env
