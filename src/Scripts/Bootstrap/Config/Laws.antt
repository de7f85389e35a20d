-- ===== src/Scripts/Bootstrap/Config/Laws.antt =====
-- What a configuration that was read without an error satisfies.
use easyclaw.Base.{◌≡◌, refl, Bool, true, false, arith, Text, ok, guard}
use easyclaw.Scripts.Platform.{Numbers, Web3}
use easyclaw.Scripts.Env.{Env}
use easyclaw.Scripts.Bootstrap.Config.{Config, FeeSplit, read_multisig, read_fee_split, read_config}

module _ (n : Numbers) (w : Web3 n) where
  open n use {Num, of_ℕ, add, num_eq}
  open w use {Key, key_eq}

  guard-eq-ok : (b : Bool) (e : Text) {u : Unit {0}} → guard b e ≡ ok u → b ≡ true
  guard-eq-ok true e h = refl
  guard-eq-ok false e h = cc

  read_multisig-eq-ok :
      (env : Env) (wallet : Key) {k : Key}
      → read_multisig n w env wallet ≡ ok k
      → key_eq k wallet ≡ true
  unfolding read_multisig
  read_multisig-eq-ok env wallet h = ground arith

  read_fee_split-eq-ok :
      (env : Env) {f : FeeSplit Num}
      → read_fee_split n w env ≡ ok f
      → num_eq (add (add f.lp_bps f.insurance_bps) f.protocol_bps) (of_ℕ 10000) ≡ true
  unfolding read_fee_split
  read_fee_split-eq-ok env h = ground arith

  -- A configuration that `main` accepts.
  pub record IsAccepted (wallet : Key) (c : Config Key Num) : Type 0 where
    pub own_wallet : c.wallet ≡ wallet
    pub own_multisig : key_eq c.multisig wallet ≡ true
    pub whole_fee :
        num_eq
          (add (add c.fee_split.lp_bps c.fee_split.insurance_bps) c.fee_split.protocol_bps)
          (of_ℕ 10000)
        ≡ true

  -- A configuration that was read without an error is signed by the wallet itself, names a
  -- multisig that is the wallet, and splits the fee into parts that add up to 10000.
  pub read_config-IsAccepted :
      (env : Env) (wallet : Key) (registry vault engine : Text) {c : Config Key Num}
      → read_config n w env wallet registry vault engine ≡ ok c
      → IsAccepted wallet c
  unfolding read_config
  read_config-IsAccepted env wallet registry vault engine {c} h = ground (
    arith,
    read_multisig-eq-ok env wallet {k = c.multisig},
    read_fee_split-eq-ok env {f = c.fee_split},
  )
