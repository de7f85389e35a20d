-- ===== src/Lib.antt =====
-- easyclaw: the TypeScript and JavaScript of the repository, which deploys the exchange's Solana
-- programs, serves its users in the browser and trades on it.
--
-- The parts and their files:
-- * Scripts models easyclaw-contract/scripts. Scripts/Env is how the scripts read the environment
--   (`getEnvNumber`, `getEnvPubkey`, `parseKeepers`), Scripts/Markets is `parseBootstrapMarkets`,
--   Scripts/Idl is `readIdlFromCandidates` and `normalizeIdl`, Scripts/Names the two spellings of
--   names and the alias table, Scripts/Rpc `callRpc`, Scripts/Defaults defaults.ts, and
--   Scripts/Bootstrap `main` of bootstrap.ts: Config is what it reads, Addresses what it derives,
--   Phases what it sends. A script is a function from the state of the cluster and the calls sent
--   so far to a result and the state afterwards; a thrown `Error` is its message.
--   Scripts/Faucet is `main` of faucet.ts with its four actions, Scripts/Funding that of fund_lp.ts.
-- * Wallet models easyclaw-frontend/src/app/lib/wallet.tsx. Wallet/Objects is the store of the
--   extensions' objects, which are shared, compared by identity and may be cyclic; Wallet/Address is
--   `toBase58` and `formatWalletAddress`, Wallet/Detection is `detectWalletOptions` and the choice
--   among its results, Wallet/Context the state of `WalletProvider` with one function per handler.
--   A handler that waits for the extension is two functions, before and after the wait, and
--   Wallet/Context/Events lets anything happen in between.
-- * Backend models easyclaw-frontend/src/app/lib/backend.ts. Backend/Session is the stored session,
--   Backend/Request is `request` (build, fetch, read), Backend/Endpoints every call as its path and
--   options, Backend/Uri the base addresses, Backend/Socket `createChannelSocket`.
-- * Skill models easyclaw-skill/scripts. Skill/Words, Skill/Args and Skill/Accounts are the numbers, the
--   command line, the accounts and the instruction data of common.js; Skill/Plan, Skill/Setup and
--   Skill/Execute are `main` of order-execute.js: what it reads, what it prepares, what it sends.
--   Skill/Agent is realtime-agent.js: Config is what it reads and the command line of an order, Signals
--   and Values what it takes from a message, Runtime its state with one function per handler, and
--   Steps the events in any order. The agent runs order-execute.js with the command line that
--   it builds. Skill/Api is backend-common.js, Skill/Balance balance.js, and Skill/Agent/Snapshot
--   what the agent prints of the positions that it asks the API for.
--   Skill/Commands is backend.js: Readers what it reads of its options, Market, Agents and Strategies the
--   path and options of every command, which Skill/Api makes a request of. Skill/Onboard is onboard.js:
--   Answers its questions and loops, EnvFile `upsertEnvValue`, Wallets the choice of a wallet, Trade the
--   configuration and the command line with which it starts realtime-agent.js. A dialog is a function of
--   the answers to come, the files and the agents started; where the answers run out it waits.
-- * Bytes is little-endian numbers; Base holds the shared notation, text, dictionaries and errors;
--   Numbers the interface of IEEE doubles; Samples concrete numbers and a
--   concrete cluster, on which the Tests modules run.
--
-- How they correspond: text is a list of 16-bit code units; a JavaScript object used as a table is an
-- association list in the order of insertion; `null`, `undefined` and a missing key are `none`; a
-- `number` that need not be a small integer is of the abstract type of Numbers. What the code calls
-- and does not implement is a parameter: @solana/web3.js, @coral-xyz/anchor and the cluster are the
-- record Web3, @solana/spl-token the record TokenAccounts; for the skill's scripts the libraries and
-- the cluster are the record Solana, with Queries for the report of balances, the process around
-- a script the record Host, and what the onboarding uses of the system the record System; `JSON` is
-- the record Codec; `fetch`, the file system and the environment are functions. ClusterLaws is about
-- the methods that the scripts call only: another method of the programs may close an account. The laws assumed of them are the records ClusterLaws, CodecLaws and KeyLaws and the
-- predicate Congruent.
--
-- The promise `activeOrder` of the agent is a list of tasks that run one after the other, with the order
-- in progress beside it; sockets, timers, child processes and the clock are the events of Step.
--
-- Bounds: `toBase58` gives up when its depth exceeds 5, which is the fuel 6 of `to_base58_from`. The
-- decimal digits of n take fuel n + 1, as each round divides by ten. Nothing else needs fuel.
--
-- Not modelled: lines of log and the texts of usage, React's rendering, abort signals, the subscription
-- calls of the wallet events, the contents of IDL types, an own `toString` of a JSON object, files that
-- exist and cannot be read, `toLowerCase` outside ASCII, and keys of `upsertEnvValue` that do not
-- stand for themselves in a pattern, which the code has none of. qa_workflow.ts,
-- the skill's ws-watch.js, the pages, the programs in Rust and the backend in Go have no
-- model here.
pub mod Base
pub mod Bytes
pub mod Numbers
pub mod Samples
pub mod Scripts
pub mod Wallet
pub mod Backend
pub mod Skill
