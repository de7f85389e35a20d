-- ===== src/Scripts.antt =====
-- The TypeScript scripts of easyclaw-contract/scripts.
pub mod Names
pub mod Defaults
pub mod Platform
pub mod Env
pub mod Markets
pub mod Idl
pub mod Rpc
pub mod Bootstrap
pub mod Faucet
pub mod Funding
mod Tests
