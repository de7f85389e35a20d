-- ===== src/Scripts/Rpc.antt =====
-- `callRpc` and `accountExists` of bootstrap.ts, `callProgram` of faucet.ts, and the state that a
-- script runs on: the accounts of the cluster, and the calls sent so far.
pub mod Steps
pub mod Laws
use easyclaw.Base.{
  Bool, true, false, Option, none, some, List, [], ◌∷◌, ◌++◌, Text, text, Result, ok, err, Dict,
  if◌then◌else◌,
}
use easyclaw.Scripts.Platform.{Numbers, Web3, Call, Arg}
use easyclaw.Scripts.Names.{resolve_method, add_account_aliases}

-- `chain` is of the cluster's type, `Call K N` the type of a call.
pub record Journal (Chain K N : Type 0) : Type 0 where
  pub chain : Chain
  pub sent : List (Call K N)

-- A step of a script: it returns or throws, and what was sent stays sent.
abbrev pub Script : Type 0 → Type 0 → Type 0
Script S A = S → Result A × S

abbrev pub pure : {S A : Type 0} → A → Script S A
pure a s = (ok a, s)

abbrev pub throw : {S A : Type 0} → Text → Script S A
throw e s = (err e, s)

-- `await` of a step, then the rest; a throw leaves at once.
abbrev pub then_run : {S A B : Type 0} → (A → Script S B) → Result A × S → Result B × S
then_run f (ok a, s) = f a s
then_run f (err e, s) = (err e, s)

infixl 5 ◌>>=◌ ◌>>◌
abbrev pub ◌>>=◌ : {S A B : Type 0} → Script S A → (A → Script S B) → Script S B
◌>>=◌ m f s = then_run f (m s)

unfoldable pub ◌>>◌ : {S B : Type 0} → Script S (Unit {0}) → Script S B → Script S B
m >> k = m >>= λ _. k

-- A computation that reads no state.
abbrev pub lift : {S A : Type 0} → Result A → Script S A
lift r s = (r, s)

-- `for (const item of items) { await body(item) }`
unfoldable pub for_each : {S A : Type 0} → (A → Script S (Unit {0})) → List A → Script S (Unit {0})
unfolding ◌>>◌
for_each body [] s = (ok tt, s)
for_each body (x ∷ xs) s = (body x >> for_each body xs) s

module _ (n : Numbers) (w : Web3 n) where
  open n use {Num}
  open w use {Key, Chain, has_account, has_method, send}

  abbrev pub World : Type 0
  World = Journal Chain Key Num

  abbrev pub account_exists : Key → Script World Bool
  account_exists key s = (ok (has_account s.chain key), s)

  abbrev pub record_call : Call Key Num → World → Result Text × Chain → Result (Unit {0}) × World
  record_call call s (ok sig, after) = (ok tt, record { chain = after; sent = s.sent ++ call ∷ [] })
  record_call call s (err e, after) = (err e, record { chain = after; sent = s.sent ++ call ∷ [] })

  unfoldable pub send_call : Call Key Num → Script World (Unit {0})
  send_call call s = record_call call s (send call s.chain)

  -- The call of the method that was found, or the error.
  invoke : Key → Text → List (Arg Key Num) → Dict Key → Option Text → Script World (Unit {0})
  unfolding send_call
  invoke program method args accounts none = throw (text "Method not found: " ++ method)
  invoke program method args accounts (some name) = send_call (record {
    program = program;
    method = name;
    args = args;
    accounts = add_account_aliases accounts;
  })

  unfoldable pub call_rpc : Key → Text → List (Arg Key Num) → Dict Key → Script World (Unit {0})
  unfolding invoke
  call_rpc program method args accounts =
      invoke program method args accounts (resolve_method (has_method program) method)

  -- `if (!(await accountExists(connection, key))) { await callRpc(...) }`, else a line of log
  unfoldable pub unless_exists : Key → Script World (Unit {0}) → Script World (Unit {0})
  unless_exists key create s = if has_account s.chain key then (ok tt, s) else create s
